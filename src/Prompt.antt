-- ===== src/Prompt.antt =====
-- internal/prompt/prompt.go: questions at the terminal.
pub mod Answers
mod Examples
use slfhst.Prelude.{
  Bool, true, false, not, ◌||◌, ◌==◌, List, [], ◌∷◌, Option, none, some, ◌⊎◌, inl, inr,
  if◌then◌else◌,
}
use slfhst.Prelude.Bytes.{Bytes}
use slfhst.Backing.{trim_front, trim_back}
use slfhst.Dbus.Message.{is_empty}
use slfhst.Runx.{Fault, Step, no_input}
use slfhst.Host.{Host}

-- `Options`; a hook is none where it is nil.
pub record Question : Type 0 where
  pub default : Bytes
  pub validate : Option (Bytes → Bool)
  pub normalize : Option (Bytes → Bytes)
  pub is_optional : Bool

abbrev pub normalized : Option (Bytes → Bytes) → Bytes → Bytes
normalized none value = value
normalized (some f) value = f value

abbrev pub is_valid : Option (Bytes → Bool) → Bytes → Bool
is_valid none value = true
is_valid (some test) value = test value

-- The value of a line, before it is judged.
unfoldable pub value_of : Question → Bytes → Bytes
value_of q line =
    let typed = trim_back (trim_front line) in
    let value = if is_empty typed then q.default else typed in
    if is_empty value then value else normalized q.normalize value

-- A round of `Ask` on the line that was typed; none asks again.
unfoldable pub judge : Question → Bytes → Option Bytes
judge q line =
    let value = value_of q line in
    if is_empty value
    then if q.is_optional then some [] else none
    else if is_valid q.validate value
    then some value
    else none

abbrev pub next_answer :
    Option Bytes → List Bytes → (Fault ⊎ Bytes) × List Bytes → (Fault ⊎ Bytes) × List Bytes
next_answer (some v) lines again = (inr v, lines)
next_answer none lines again = again

-- The loop of `Ask` on the lines that are still to be typed; their end is an error.
unfoldable pub ask_from : Question → List Bytes → (Fault ⊎ Bytes) × List Bytes
ask_from q [] = (inl no_input, [])
ask_from q (line ∷ lines) = next_answer (judge q line) lines (ask_from q lines)

-- `Ask`
unfoldable pub ask : {S : Type 0} → Question → Step (Host S) Bytes
ask q h = let (r, lines) = ask_from q h.typed in (r, record h { typed = lines })

-- `trimNewline`
unfoldable pub trim_newline : Bytes → Bytes
trim_newline [] = []
trim_newline (c ∷ cs) = keep (trim_newline cs)
  where
    keep : Bytes → Bytes
    keep [] = if c == b'\n' || c == 13 then [] else c ∷ []
    keep (d ∷ ds) = c ∷ d ∷ ds

abbrev first_line : List Bytes → (Fault ⊎ Bytes) × List Bytes
first_line [] = (inl no_input, [])
first_line (line ∷ lines) = (inr (trim_newline line), lines)

-- `AskSecret`, on a terminal whose echo can be turned off.
unfoldable pub ask_secret : {S : Type 0} → Step (Host S) Bytes
unfolding trim_newline
ask_secret h = let (r, lines) = first_line h.typed in (r, record h { typed = lines })
