-- ===== src/Dnscf/Runs.antt =====
-- What a run over the wanted records sends.
use slfhst.Prelude.{◌≡◌, ◌≢◌, ◌⊎◌, inl, inr, List, [], ◌∷◌, ◌++◌, refl}
use slfhst.Prelude.Bytes.{Bytes}
use slfhst.Dnscf.{
  DnsRecord, Request, nothing, put_record, post_record, Fault, Api, upsert, send, and_then,
  upsert_all,
}
use slfhst.Dnscf.Upserts.{Meets, upsert-Meets}

-- A request with the zone and the token that it was sent with, and its answer.
pub record Sent : Type 0 where
  pub zone : Bytes
  pub token : Bytes
  pub request : Request
  pub answer : Fault ⊎ Unit {0}

abbrev pub Log : Type 0
Log = List Sent

-- The API that keeps its requests, the last one at the end.
abbrev pub logging : {S : Type 0} → Api S → Api (S × Log)
logging api = record {
  public_ip = λ (s, l). let (r, s') = api.public_ip s in (r, (s', l));
  zone_id = λ domain token (s, l). let (r, s') = api.zone_id domain token s in (r, (s', l));
  existing_records =
      λ zone token (s, l). let (r, s') = api.existing_records zone token s in (r, (s', l));
  request = λ zone token q (s, l).
      let (r, s') = api.request zone token q s in
      (r, (s', l ++ (record { zone = zone; token = token; request = q; answer = r } ∷ [])));
}

module _ (zone token : Bytes) (existing : List DnsRecord) where
  -- The request for `rec` was answered with `r`; none is sent where there is nothing to ask.
  abbrev pub Asked : DnsRecord → (Fault ⊎ Unit {0}) → Log → Log → Type 0
  Asked rec r l l' =
      (q : Request) × Meets existing rec q
      × (((q ≡ nothing) × (r ≡ inr tt) × (l' ≡ l))
          ⊎ ((q ≢ nothing)
              × (l' ≡ l ++ (record { zone = zone; token = token; request = q; answer = r } ∷ []))))

  -- Every record in turn where the run succeeds, and those up to a refused one where it fails.
  abbrev pub AllAsked : List DnsRecord → (Fault ⊎ Unit {0}) → Log → Log → Type 0
  AllAsked [] r l l' = (r ≡ inr tt) × (l' ≡ l)
  AllAsked (rec ∷ recs) r l l' =
      ((f : Fault) × (r ≡ inl f) × Asked rec (inl f) l l')
      ⊎ ((m : Log) × Asked rec (inr tt) l m × AllAsked recs r m l')

  module _ {S : Type 0} (api : Api S) where
    send-Asked :
        (rec : DnsRecord) (q : Request) (s : S × Log)
        → Meets existing rec q
        → let (r, s') = send (logging api) zone token q s in Asked rec r s.1 s'.1
    unfolding send
    send-Asked rec nothing s h = (nothing, h, inl (refl, refl, refl))
    send-Asked rec (put_record id new) s h = (put_record id new, h, inr ((λ e. cc), refl))
    send-Asked rec (post_record new) s h = (post_record new, h, inr ((λ e. cc), refl))

    then-AllAsked :
        (rec : DnsRecord) (recs : List DnsRecord) (l : Log) (x : (Fault ⊎ Unit {0}) × (S × Log))
        (next : S × Log → (Fault ⊎ Unit {0}) × (S × Log))
        → Asked rec x.0 l x.1.1
        → ((s : S × Log) → AllAsked recs (next s).0 s.1 (next s).1.1)
        → AllAsked (rec ∷ recs) (and_then x next).0 l (and_then x next).1.1
    then-AllAsked rec recs l (inl f, s) next h k = inl (f, refl, h)
    then-AllAsked rec recs l (inr u, s) next h k = inr (s.1, h, k s)

    -- A run over the wanted records asks for each of them in turn, in the zone and with the token that
    -- it is given, what takes the existing records to ones that hold it; where it succeeds it has asked
    -- so for every record, and where it fails for those up to the first that was refused.
    pub upsert_all-AllAsked :
        (recs : List DnsRecord) (s : S × Log)
        → let (r, s') = upsert_all (logging api) zone token existing recs s in
          AllAsked recs r s.1 s'.1
    unfolding upsert_all
    upsert_all-AllAsked [] s = (refl, refl)
    upsert_all-AllAsked (rec ∷ recs) s =
        then-AllAsked rec recs s.1 (send (logging api) zone token (upsert existing rec) s)
          (upsert_all (logging api) zone token existing recs)
          (send-Asked rec (upsert existing rec) s (upsert-Meets existing rec))
          (upsert_all-AllAsked recs)
