-- ===== src/Dbus/Message/Lengths.antt =====
-- A message that is read is taken off the stream.
use slfhst.Prelude.{
  ℕ, ◌+◌, ◌≤◌, ◌≡◌, not, ◌&&◌, length, length-drop, take, drop, ltb, if◌then◌else◌, Bool,
  Bool-cases, inl, inr, true, false, ap, arith,
}
use slfhst.Prelude.Bytes.{Bytes, le_value}
use slfhst.Dbus.Result.{Result, ok, err, bind_ok, ◌>>=◌, Error, short_read}
use slfhst.Dbus.Message.{
  RawMessage, read_full, read_message, first_byte, is_empty, decode_fields, decode_body,
  read_fields, empty_message,
}

-- What is read with io.ReadFull is gone from the stream, and nothing else.
read_full_ok {ℓ} :
    {B : Type ℓ} (n : ℕ) (r : Bytes) (next : Bytes × Bytes → Result B) {b : B}
    → (read_full n r >>= next) ≡ ok b
    → (bs : Bytes) × (r' : Bytes) × (length r' + n ≡ length r) × (next (bs, r') ≡ ok b)
unfolding read_full
read_full_ok {B} n r next {b} h = elim (Bool-cases (ltb (length r) n)) [
  | inl short ↦ absurd (failed short)
  | inr enough ↦
      let h' : next (take n r, drop n r) ≡ ok b = rw enough at h in
      (take n r, drop n r, length-drop n r (ground arith), h')
]
  where
    failed : ltb (length r) n ≡ true → ⊥
    failed short = let h' : err short_read ≡ ok b = rw short at h in cc

-- Where it succeeds, it leaves at most what stands behind the first `n` bytes of `r`.
abbrev Takes : ℕ → Bytes → Result (RawMessage × Bytes) → Type 0
Takes n r x = (m : RawMessage) (r' : Bytes) → x ≡ ok (m, r') → length r' + n ≤ length r

Takes-read_full :
    (n : ℕ) (r : Bytes) (next : Bytes × Bytes → Result (RawMessage × Bytes))
    → ((bs r1 : Bytes) → Takes 0 r1 (next (bs, r1)))
    → Takes n r (read_full n r >>= next)
Takes-read_full n r next k m r' h =
    let (bs, r1, l, h') = read_full_ok n r next h in
    let rest = k bs r1 m r' h' in omega (arith, l, rest)

weaken : (n : ℕ) (r : Bytes) (x : Result (RawMessage × Bytes)) → Takes n r x → Takes 0 r x
weaken n r x k m r' h = let bound = k m r' h in omega (arith, bound)

module _ (r : Bytes) where
  Takes-bind :
      {A : Type 0} (x : Result A) (next : A → Result (RawMessage × Bytes))
      → ((a : A) → Takes 0 r (next a))
      → Takes 0 r (x >>= next)
  Takes-bind x next k m r' h = let (a, e, h') = bind_ok x next h in k a m r' h'

  Takes-err : (e : Error) → Takes 0 r (err e)
  Takes-err e m r' h = absurd (never h)
    where
      never : ◌≡◌ {A = Result (RawMessage × Bytes)} (err e) (ok (m, r')) → ⊥
      never h = cc

  Takes-ok : (n : RawMessage) → Takes 0 r (ok (n, r))
  Takes-ok n m r' h =
      let same : r ≡ r' = ap (λ x. elim x [ ok v ↦ v.1 | _ ↦ r ]) h in rw same (omega arith)

  Takes-if :
      (t : Bool) (x y : Result (RawMessage × Bytes))
      → Takes 0 r x
      → Takes 0 r y
      → Takes 0 r (if t then x else y)
  Takes-if true x y k l = k
  Takes-if false x y k l = l

-- Every message takes its twelve first bytes at least.
pub read_message_shorter :
    (r : Bytes) (m : RawMessage) (r' : Bytes)
    → read_message r ≡ ok (m, r')
    → length r' + 12 ≤ length r
unfolding read_message
read_message_shorter r = Takes-read_full 12 r _ λ fixed r1. Takes-if r1 _ _ _ (Takes-err r1 _) (
    weaken 4 r1 _ (
      Takes-read_full 4 r1 _ λ len_buf r2. weaken _ r2 _ (
        Takes-read_full _ r2 _ λ pad r3. weaken _ r3 _ (
          Takes-read_full _ r3 _ λ fields_buf r4. weaken _ r4 _ (
            Takes-read_full _ r4 _ λ pad' r5. weaken _ r5 _ (
              Takes-read_full _ r5 _ λ body_buf r6.
                Takes-bind r6 (decode_fields fields_buf) _ λ items.
                  let msg = read_fields (empty_message (first_byte (drop 1 fixed))) items in
                  Takes-if r6
                    (not (is_empty msg.signature) && ltb 0 (le_value (take 4 (drop 4 fixed)))) _ _
                    (Takes-bind r6 (decode_body msg.signature body_buf) _
                      λ body. Takes-ok r6 (record msg { body = body }))
                    (Takes-ok r6 msg)))))))
