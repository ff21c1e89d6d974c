-- ===== src/Webhook/Templates.antt =====
-- export/webhook.py: what a template of texts and placeholders is rendered to.
use Prim.Native.Char.{Char, code}
use databridge.Base.{
  ℕ, suc, ◌+◌, ◌≡◌, refl, ap, ◌∙◌, true, false, none, some, List, [], ◌∷◌, String, ◌==◌, arith,
  or_else,
}
use databridge.Base.Text.{is_empty, is_word, concat, AllChars}
use databridge.Base.Lists.{All}
use databridge.Value.{dict, Codec, Entries, get}
use databridge.Webhook.{
  word_of, placeholder, size, substitute, value_text, rendered, render_payload,
}

-- A piece of a template: a text, or a placeholder with its name.
pub data Piece : Type 0 where
  words : String → Piece
  field : String → Piece

abbrev pub printed : List Piece → String
printed [] = ""
printed (words s ∷ pieces) = concat s (printed pieces)
printed (field name ∷ pieces) = concat "{{" (concat name (concat "}}" (printed pieces)))

-- The pieces with the values of the placeholders put in.
abbrev pub filled : Codec → Entries → List Piece → String
filled c context [] = ""
filled c context (words s ∷ pieces) = concat s (filled c context pieces)
filled c context (field name ∷ pieces) =
    concat (value_text c (get name context)) (filled c context pieces)

-- A text without an opening brace, and a name of one or more letters, digits and underscores.
abbrev pub IsPiece : Piece → Type 0
IsPiece (words s) = AllChars (λ ch. (code ch == 123) ≡ false) s
IsPiece (field name) = (is_empty name ≡ false) × AllChars (λ ch. is_word ch ≡ true) name

placeholder-plain :
    (ch : Char) (s : String) → (code ch == 123) ≡ false → placeholder (String.◌∷◌ ch s) ≡ none
unfolding placeholder
placeholder-plain ch s h = ground arith

word_of-word :
    (name rest : String)
    → AllChars (λ ch. is_word ch ≡ true) name
    → word_of (concat name (concat "}}" rest)) ≡ (name, concat "}}" rest)
unfolding word_of
word_of-word String.[] rest h = refl
word_of-word (String.◌∷◌ ch name) rest (h, hs) = rw (h, word_of-word name rest hs) refl

placeholder-field :
    (name rest : String)
    → is_empty name ≡ false
    → AllChars (λ ch. is_word ch ≡ true) name
    → placeholder (concat "{{" (concat name (concat "}}" rest))) ≡ some name
unfolding placeholder
placeholder-field name rest h hs = rw (word_of-word name rest hs, h) refl

substitute-taken :
    (f : String → String) (k : ℕ) (s rest : String)
    → substitute f (size s + k) (concat s rest) ≡ substitute f k rest
unfolding substitute
substitute-taken f k String.[] rest = let e : 0 + k ≡ k = omega arith in rw e refl
substitute-taken f k (String.◌∷◌ c s) rest =
    let e : suc (size s) + k ≡ suc (size s + k) = omega arith in rw e (substitute-taken f k s rest)

substitute-words :
    (f : String → String) (s rest : String)
    → AllChars (λ ch. (code ch == 123) ≡ false) s
    → substitute f 0 (concat s rest) ≡ concat s (substitute f 0 rest)
unfolding substitute
substitute-words f String.[] rest h = refl
substitute-words f (String.◌∷◌ c s) rest (h, hs) =
    rw (substitute, placeholder-plain c (concat s rest) h)
      (ap (String.◌∷◌ c) (substitute-words f s rest hs))

substitute-field :
    (f : String → String) (name rest : String)
    → is_empty name ≡ false
    → AllChars (λ ch. is_word ch ≡ true) name
    → substitute f 0 (concat "{{" (concat name (concat "}}" rest)))
      ≡ concat (f name) (substitute f 0 rest)
unfolding substitute
substitute-field f name rest h hs =
    let e : size name + 3 ≡ suc (size name + 2) = omega arith in
    rw (substitute, placeholder-field name rest h hs, e)
      (ap (concat (f name)) (substitute-taken f 2 name (concat "}}" rest)))

-- A template of texts without an opening brace and of placeholders is rendered to these texts with
-- the values of the context in the places of the placeholders, and nothing where it has none.
rendered-printed :
    (c : Codec) (context : Entries) (pieces : List Piece)
    → All IsPiece pieces
    → rendered c context (printed pieces) ≡ filled c context pieces
unfolding rendered substitute
rendered-printed c context [] h = refl
rendered-printed c context (words s ∷ pieces) (h, hs) =
    substitute-words (λ name. value_text c (get name context)) s (printed pieces) h
    ∙ ap (concat s) (rendered-printed c context pieces hs)
rendered-printed c context (field name ∷ pieces) ((h, k), hs) =
    substitute-field (λ name'. value_text c (get name' context)) name (printed pieces) h k
    ∙ ap (concat (value_text c (get name context))) (rendered-printed c context pieces hs)

-- Where such a template is not empty, the payload is what its filled-in text decodes to, and the
-- context where the text is no JSON.
pub render_payload-printed :
    (c : Codec) (context : Entries) (pieces : List Piece)
    → All IsPiece pieces
    → is_empty (printed pieces) ≡ false
    → render_payload c (some (printed pieces)) context
      ≡ or_else (c.loads (filled c context pieces)) (dict context)
unfolding render_payload
render_payload-printed c context pieces h k = rw (k, rendered-printed c context pieces h) refl
