-- ===== src/Netconf/Addresses.antt =====
-- What askStatic makes of the lines of a static configuration.
use slfhst.Prelude.{
  Bool, ap, ℕ, zero, suc, ◌<◌, ◌≡◌, ◌≢◌, inl, inr, true, false, List, [], ◌∷◌, ◌++◌, map, Option,
  none, some, length, length-append, if◌then◌else◌, refl, arith,
}
use slfhst.Prelude.Bytes.{Bytes}
use slfhst.Dbus.Message.{is_empty}
use slfhst.Runx.{pure, ◌>>=◌}
use slfhst.Host.{Host}
use slfhst.Prompt.{ask}
use slfhst.Prompt.Answers.{Accepts, ask-Accepts}
use slfhst.Netconf.{
  ask_addresses, ask_static, address_question, is_ipv4, is_ipv4_cidr, is_ipv6, is_ipv6_cidr,
  no_addresses,
}

-- A typed line and its answer.
abbrev pub Answer : Type 0
Answer = Bytes × Bytes

abbrev pub line_of : Answer → Bytes
line_of (line, v) = line

abbrev pub value_in : Answer → Bytes
value_in (line, v) = v

abbrev pub AllAddresses : List Answer → Type 0
AllAddresses [] = Unit {0}
AllAddresses ((line, v) ∷ v6) =
    (v ≢ []) × Accepts (address_question is_ipv6_cidr true) line v × AllAddresses v6

-- There is a gateway just where there is an address.
abbrev pub IsGateway : List Answer → Option Answer → Type 0
IsGateway [] none = Unit {0}
IsGateway [] (some g) = ⊥
IsGateway (a ∷ v6) none = ⊥
IsGateway (a ∷ v6) (some (line, v)) = Accepts (address_question is_ipv6 false) line v

abbrev pub gateway_lines : Option Answer → List Bytes
gateway_lines none = []
gateway_lines (some (line, v)) = line ∷ []

abbrev pub gateway_value : Option Answer → Bytes
gateway_value none = []
gateway_value (some (line, v)) = v

full : (v : Bytes) → v ≢ [] → is_empty v ≡ false
full [] h = absurd (h refl)
full (c ∷ cs) h = refl

required :
    (test : Bytes → Bool) (line v : Bytes) → Accepts (address_question test false) line v → v ≢ []
required test line v (value, chosen, normal, inl (e, opt)) = absurd (clash opt)
  where
    clash : false ≡ true → ⊥
    clash e = cc
required test line v (value, chosen, normal, inr (n, valid)) = n

lines_of : (v6 : List Answer) → length (map line_of v6) ≡ length v6
lines_of [] = refl
lines_of (a ∷ v6) = ap suc (lines_of v6)

module _ {S : Type 0} where
  addresses_asked :
      (f : ℕ) (v6 : List Answer) (blank : Bytes) (rest : List Bytes) (h : Host S)
      → length v6 < f
      → h.typed ≡ map line_of v6 ++ blank ∷ rest
      → AllAddresses v6
      → Accepts (address_question is_ipv6_cidr true) blank []
      → ask_addresses f h ≡ (inr (map value_in v6), record h { typed = rest })
  unfolding ask_addresses ◌>>=◌
  addresses_asked zero v6 blank rest h l typed all b = absurd (omega (arith, l))
  addresses_asked (suc f) [] blank rest h l typed all b =
      rw (ask-Accepts (address_question is_ipv6_cidr true) h blank [] rest typed b) refl
  addresses_asked (suc f) ((line, v) ∷ v6) blank rest h l typed (n, a, all) b =
      rw
        (
          ask-Accepts (address_question is_ipv6_cidr true) h line v (map line_of v6 ++ blank ∷ rest)
              typed a,
          full v n,
          addresses_asked f v6 blank rest (record h { typed = map line_of v6 ++ blank ∷ rest })
              (omega (arith, l)) refl all b,
        )
        refl

  gateway_asked :
      (v6 : List Answer) (g : Option Answer) (rest : List Bytes) (h : Host S)
      → h.typed ≡ gateway_lines g ++ rest
      → IsGateway v6 g
      → (if no_addresses (map value_in v6) then pure [] else ask (address_question is_ipv6 false)) h
        ≡ (inr (gateway_value g), record h { typed = rest })
  gateway_asked [] none rest h typed fit = ap (λ t. (inr [], record h { typed = t })) typed
  gateway_asked [] (some g) rest h typed fit = absurd fit
  gateway_asked (a ∷ v6) none rest h typed fit = absurd fit
  gateway_asked (a ∷ v6) (some (line, v)) rest h typed fit =
      ask-Accepts (address_question is_ipv6 false) h line v rest typed fit

  -- Where the typed lines answer the questions, an address and a gateway for IPv4, any number of IPv6
  -- addresses, a blank, and a gateway for IPv6 just where there was an address, `askStatic` succeeds
  -- with exactly these answers, and leaves the lines behind them.
  pub ask_static-answers :
      (v4 g4 : Answer) (v6 : List Answer) (blank : Bytes) (g6 : Option Answer) (rest : List Bytes)
      (h : Host S)
      → h.typed ≡ line_of v4 ∷ line_of g4 ∷ (map line_of v6 ++ blank ∷ (gateway_lines g6 ++ rest))
      → Accepts (address_question is_ipv4_cidr false) (line_of v4) (value_in v4)
      → Accepts (address_question is_ipv4 false) (line_of g4) (value_in g4)
      → AllAddresses v6
      → Accepts (address_question is_ipv6_cidr true) blank []
      → IsGateway v6 g6
      → ask_static h ≡ (
        inr (
            some (record {
              ipv4_address = value_in v4;
              ipv4_gateway = value_in g4;
              ipv6_addresses = map value_in v6;
              ipv6_gateway = gateway_value g6;
            })),
        record h { typed = rest },
      )
  unfolding ask_static ◌>>=◌
  ask_static-answers (l4, v4) (lg, g4) v6 blank g6 rest h typed a4 ag all b fit =
      let last = gateway_lines g6 ++ rest in
      let middle = map line_of v6 ++ blank ∷ last in
      let lines = ap length typed in
      let bound : length v6 < suc (length h.typed) =
        omega (arith, lines, length-append (map line_of v6) (blank ∷ last), lines_of v6) in
      rw
        (
          ask-Accepts (address_question is_ipv4_cidr false) h l4 v4 (lg ∷ middle) typed a4,
          ask-Accepts (address_question is_ipv4 false) (record h { typed = lg ∷ middle }) lg g4
              middle refl ag,
          addresses_asked (suc (length h.typed)) v6 blank last (record h { typed = middle }) bound
              refl all b,
          gateway_asked v6 g6 rest (record h { typed = last }) refl fit,
          full v4 (required is_ipv4_cidr l4 v4 a4),
        )
        refl
