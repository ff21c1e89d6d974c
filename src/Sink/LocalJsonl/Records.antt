-- ===== src/Sink/LocalJsonl/Records.antt =====
-- sinks/local_jsonl.py as a sink of sinks/base.py, and the records that it takes.
use databridge.Base.{refl, none, String, str_eq_self}
use databridge.Value.{Value}
use databridge.Sink.{returns, Sink, Recording}
use databridge.Sink.LocalJsonl.{
  LocalJsonl, create_dataset, post_file, finalise, is_open, suffixed, write_line,
}
use databridge.Sink.LocalJsonl.Lines.{is_plain, post_file-plain}

module _ (dumps : Value → String) where
  -- The class's methods; it has no identity to set, and no ids of another system.
  abbrev pub local_jsonl_sink : Sink LocalJsonl
  local_jsonl_sink = record {
    set_actor = λ org_id user_id s. s;
    ping = λ s. (s, returns tt);
    create_dataset = λ name s. (create_dataset name s, returns tt);
    post_file = post_file dumps;
    finalise = λ s. (finalise dumps s, returns tt);
    external_id = λ s. none;
    dataset_id = λ s name. none;
    records_skipped = λ s. 0;
  }

  -- A dataset that is open takes the dicts that have no text under `data`: its file gets a line for
  -- each.
  abbrev pub local_jsonl_recording :
      (dataset : String) → Recording LocalJsonl String local_jsonl_sink dataset
  local_jsonl_recording dataset = record {
    contents = λ s. s.files (suffixed s.job_id dataset);
    line = dumps;
    ready = λ s. is_open s dataset;
    takes = is_plain;
    records = λ v s opened plain. (
      "",
      write_line dataset (dumps v) s,
      post_file-plain dumps dataset v s plain opened,
      rw (str_eq_self (suffixed s.job_id dataset)) refl,
      opened,
    );
  }
