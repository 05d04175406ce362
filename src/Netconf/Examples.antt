-- ===== src/Netconf/Examples.antt =====
-- Answers for a static configuration.
use slfhst.Prelude.{◌≡◌, Bool, true, false, inr, [], ◌∷◌, some, refl}
use slfhst.Prelude.Bytes.{Bytes, codes}
use slfhst.Host.{Host}
use slfhst.Prompt.{judge, value_of}
use slfhst.Backing.{trim_front, trim_back}
use slfhst.Prelude.Text.{split, is_digit}
use slfhst.Prompt.Answers.{Accepts, judge_iff}
use slfhst.Netconf.{
  ask_static, address_question, is_ipv4, is_ipv4_cidr, is_ipv6, is_ipv6_cidr, is_cidr,
  strip_whitespace, all_of,
}
use slfhst.Netconf.Addresses.{Answer, AllAddresses, ask_static-answers}

abbrev host : Host (Unit {0})
host = record {
  tree = [];
  outer = tt;
  log = [];
  typed =
      codes "203.0.113.7/24\n"
      ∷ codes "203.0.113.1\n"
      ∷ codes "2001:db8::7/64\n"
      ∷ codes "\n"
      ∷ codes "2001:db8::1\n"
      ∷ codes "more\n"
      ∷ [];
}

module _ (test : Bytes → Bool) (is_optional : Bool) (line v : Bytes) where
  accepted :
      judge (address_question test is_optional) line ≡ some v
      → Accepts (address_question test is_optional) line v
  accepted = (judge_iff (address_question test is_optional) line v).0

abbrev v4 : Answer
v4 = (codes "203.0.113.7/24\n", codes "203.0.113.7/24")

abbrev g4 : Answer
g4 = (codes "203.0.113.1\n", codes "203.0.113.1")

abbrev v6 : Answer
v6 = (codes "2001:db8::7/64\n", codes "2001:db8::7/64")

abbrev g6 : Answer
g6 = (codes "2001:db8::1\n", codes "2001:db8::1")

v4_answer : judge (address_question is_ipv4_cidr false) v4.0 ≡ some v4.1
unfolding judge value_of trim_back trim_front strip_whitespace is_cidr split is_ipv4 all_of is_digit
v4_answer = refl

g4_answer : judge (address_question is_ipv4 false) g4.0 ≡ some g4.1
unfolding judge value_of trim_back trim_front strip_whitespace is_ipv4 split all_of is_digit
g4_answer = refl

v6_answer : judge (address_question is_ipv6_cidr true) v6.0 ≡ some v6.1
unfolding judge value_of trim_back trim_front strip_whitespace is_cidr split is_ipv6 all_of is_digit
v6_answer = refl

blank_answer : judge (address_question is_ipv6_cidr true) (codes "\n") ≡ some []
unfolding judge value_of trim_back trim_front
blank_answer = refl

g6_answer : judge (address_question is_ipv6 false) g6.0 ≡ some g6.1
unfolding judge value_of trim_back trim_front strip_whitespace is_ipv6 all_of is_digit
g6_answer = refl

addresses : AllAddresses (v6 ∷ [])
addresses = ((λ e. cc), accepted is_ipv6_cidr true _ _ v6_answer, tt)

ask_static-answers_example : ask_static host ≡ (
  inr (
      some (record {
        ipv4_address = codes "203.0.113.7/24";
        ipv4_gateway = codes "203.0.113.1";
        ipv6_addresses = codes "2001:db8::7/64" ∷ [];
        ipv6_gateway = codes "2001:db8::1";
      })),
  record host { typed = codes "more\n" ∷ [] },
)
ask_static-answers_example =
    ask_static-answers v4 g4 (v6 ∷ []) (codes "\n") (some g6) (codes "more\n" ∷ []) host refl
      (accepted is_ipv4_cidr false _ _ v4_answer) (accepted is_ipv4 false _ _ g4_answer) addresses
      (accepted is_ipv6_cidr true _ _ blank_answer) (accepted is_ipv6 false _ _ g6_answer)
