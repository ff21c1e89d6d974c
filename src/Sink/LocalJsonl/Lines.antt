-- ===== src/Sink/LocalJsonl/Lines.antt =====
-- What the file of a dataset holds.
use databridge.Base.{
  ◌≡◌, refl, sym, ◌∙◌, Bool, true, false, not, Option, none, some, List, [], ◌∷◌, ◌++◌, map, String,
  str_eq, str_eq_self,
}
use databridge.Base.Lists.{All, append_assoc, append_nil}
use databridge.Value.{Value, null, boolean, number, text, list, dict, Entries, get}
use databridge.Sink.{returns}
use databridge.Sink.LocalJsonl.{
  LocalJsonl, post_file, post_data, post_all, is_open, suffixed, write_line,
}

abbrev is_text : Option Value → Bool
is_text (some (text t)) = true
is_text v = false

-- A dict whose entry `data`, if there is one, is no text.
abbrev pub is_plain : Value → Bool
is_plain (dict fs) = not (is_text (get "data" fs))
is_plain v = false

module _ (dumps : Value → String) (dataset : String) where
  post_data-plain :
      (fs : Entries) (o : Option Value) (s : LocalJsonl)
      → not (is_text o) ≡ true
      → is_open s dataset ≡ true
      → post_data dumps dataset fs none o s ≡ (write_line dataset (dumps (dict fs)) s, returns "")
  post_data-plain fs none s h k = rw k refl
  post_data-plain fs (some null) s h k = rw k refl
  post_data-plain fs (some (boolean b)) s h k = rw k refl
  post_data-plain fs (some (number n)) s h k = rw k refl
  post_data-plain fs (some (text t)) s h k = cc
  post_data-plain fs (some (list xs)) s h k = rw k refl
  post_data-plain fs (some (dict gs)) s h k = rw k refl

  pub post_file-plain :
      (v : Value) (s : LocalJsonl)
      → is_plain v ≡ true
      → is_open s dataset ≡ true
      → post_file dumps dataset v none s ≡ (write_line dataset (dumps v) s, returns "")
  unfolding post_file
  post_file-plain (dict fs) s h k = post_data-plain fs (get "data" fs) s h k
  post_file-plain null s h k = cc
  post_file-plain (boolean b) s h k = cc
  post_file-plain (number n) s h k = cc
  post_file-plain (text t) s h k = cc
  post_file-plain (list xs) s h k = cc

  -- Records that are dicts without a text under `data`, posted one after the other to a dataset that is
  -- open, are all taken; the dataset's file gets a line for each, in order, and no other file changes,
  -- nor do the assets.
  pub post_all-lines :
      (vs : List Value) (s : LocalJsonl)
      → All (λ v. is_plain v ≡ true) vs
      → is_open s dataset ≡ true
      → let (s', taken) = post_all dumps dataset vs s in
        (taken ≡ true)
        × (s'.files (suffixed s.job_id dataset)
            ≡ s.files (suffixed s.job_id dataset) ++ map dumps vs)
        × ((other : String)
            → str_eq (suffixed s.job_id dataset) other ≡ false
            → s'.files other ≡ s.files other)
        × (s'.assets ≡ s.assets)
  unfolding post_all
  post_all-lines [] s h k = (refl, sym (append_nil _), λ other e. refl, refl)
  post_all-lines (v ∷ vs) s (h, hs) k = rw (post_file-plain v s h k) (
      let (t, f, o, a) = post_all-lines vs (write_line dataset (dumps v) s) hs k in
      (
        t,
        f
            ∙ (rw (str_eq_self (suffixed s.job_id dataset))
                (append_assoc (s.files (suffixed s.job_id dataset)) (dumps v ∷ []) (map dumps vs))),
        λ other e. o other e ∙ (rw e refl),
        a,
      ))
