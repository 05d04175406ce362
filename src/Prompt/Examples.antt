-- ===== src/Prompt/Examples.antt =====
-- A required value of digits, asked for until it is right.
use slfhst.Prelude.{◌≡◌, false, [], ◌∷◌, none, some}
use slfhst.Prelude.Bytes.{codes}
use slfhst.Backing.{has_prefix}
use slfhst.Host.{Host}
use slfhst.Prompt.{Question, ask}
use slfhst.Prompt.Answers.{IsAnswer, ask-IsAnswer}

abbrev question : Question
question = record {
  default = [];
  validate = some (λ s. has_prefix s (codes "1"));
  normalize = none;
  is_optional = false;
}

abbrev host : Host (Unit {0})
host = record {
  tree = [];
  outer = tt;
  log = [];
  typed = codes "\n" ∷ codes "x\n" ∷ codes " 12 \n" ∷ codes "y\n" ∷ [];
}

ask-IsAnswer_example :
    let (r, h') = ask question host in
    IsAnswer question host.typed (r, h'.typed) × (h' ≡ record host { typed = h'.typed })
ask-IsAnswer_example = ask-IsAnswer question host
