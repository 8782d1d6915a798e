-- ===== src/Lifecycle/Effects/Receipts.antt =====
-- packages/lifecycle/src/effects.ts: `appendEffectReceipt` keeps a log that only grows.
use arc_db.Base.{
  String, true, not, ◌≡◌, ◌≢◌, refl, sym, ap, ◌∙◌, inl, inr, arith, List, [], ◌∷◌, ◌++◌, none, some,
  All, find, ok, throw_if, >>=-eq-ok, Option-cases, ◌==◌, eq_iff, eq_refl, append-nil,
}
use arc_db.Host.{Host}
use arc_db.Contracts.Effect.{EffectIntent, EffectReceipt, parse_receipt}
use arc_db.Lifecycle.Effects.{append_effect_receipt, append_found, has_id, receipt_digest}

-- The log of an intent: every receipt is its own, and no two have one id.
abbrev pub HasDistinctIds : List EffectReceipt → Type 0
HasDistinctIds [] = Unit
HasDistinctIds (r ∷ rs) = All (λ s. r.id ≢ s.id) rs × HasDistinctIds rs

pub record IsLog (intent : EffectIntent) (log : List EffectReceipt) : Type 0 where
  pub own : All (λ r. r.intent_id ≡ intent.id) log
  pub distinct : HasDistinctIds log

-- What an append that returned has done.
pub data Appended (host : Host) (log : List EffectReceipt) (unparsed : EffectReceipt)
    (intent : EffectIntent) (log' : List EffectReceipt) : Type 0 where
  replayed :
      (p old : EffectReceipt)
      → parse_receipt host unparsed ≡ ok p
      → p.intent_id ≡ intent.id
      → find (has_id host p) log ≡ some old
      → receipt_digest host old ≡ receipt_digest host p
      → log' ≡ log
      → Appended host log unparsed intent log'
  added :
      (p : EffectReceipt)
      → parse_receipt host unparsed ≡ ok p
      → p.intent_id ≡ intent.id
      → find (has_id host p) log ≡ none
      → log' ≡ log ++ (p ∷ [])
      → Appended host log unparsed intent log'

append_effect_receipt-Appended :
    (host : Host) (log log' : List EffectReceipt) (r : EffectReceipt) (i : EffectIntent)
    → append_effect_receipt host log r i ≡ ok log'
    → Appended host log r i log'
unfolding append_effect_receipt
append_effect_receipt-Appended host log log' r i h =
    let (p, hp, h₁) = >>=-eq-ok (parse_receipt host r) _ h in
    let (_, same, h₂) = >>=-eq-ok (throw_if (not (p.intent_id == i.id)) _) _ h₁ in
    let own : p.intent_id ≡ i.id = ground (arith, eq_iff p.intent_id i.id) in
    elim (Option-cases (find (has_id host p) log)) [
      | inl n ↦ added p hp own n (cc (rw (n, append_found) at h₂))
      | inr (old, f) ↦
          let (d, hd, h₃) = >>=-eq-ok (receipt_digest host old) _ (rw (f, append_found) at h₂) in
          let (e, he, h₄) = >>=-eq-ok (receipt_digest host p) _ h₃ in
          let equal : d ≡ e = ground (arith, eq_iff d e) in
          replayed p old hp own f (hd ∙ ap ok equal ∙ sym he) (ground arith)
    ]

-- The log that was there is a prefix of the one returned.
pub append_effect_receipt-prefix :
    (host : Host) (log log' : List EffectReceipt) (r : EffectReceipt) (i : EffectIntent)
    → append_effect_receipt host log r i ≡ ok log'
    → (more : List EffectReceipt) × (log' ≡ log ++ more)
append_effect_receipt-prefix host log log' r i h =
    prefix (append_effect_receipt-Appended host log log' r i h)
  where
    prefix : Appended host log r i log' → (more : List EffectReceipt) × (log' ≡ log ++ more)
    prefix (replayed p old hp own f d e) = ([], e ∙ sym (append-nil log))
    prefix (added p hp own n e) = (p ∷ [], e)

All-snoc {ℓ κ} :
    {A : Type ℓ} (P : A → Type κ) (xs : List A) (y : A) → All P xs → P y → All P (xs ++ (y ∷ []))
All-snoc P [] y h p = (p, tt)
All-snoc P (x ∷ xs) y (q, h) p = (q, All-snoc P xs y h p)

-- No receipt of the log has the id that was not found.
fresh_ids :
    (host : Host) (p : EffectReceipt) (log : List EffectReceipt)
    → find (has_id host p) log ≡ none
    → All (λ s. s.id ≢ p.id) log
fresh_ids host p [] n = tt
fresh_ids host p (s ∷ log) n = (
  (λ e. ground (arith, eq_iff s.id p.id)),
  fresh_ids host p log (ground (arith, eq_iff s.id p.id)),
)

HasDistinctIds-snoc :
    (log : List EffectReceipt) (p : EffectReceipt)
    → HasDistinctIds log
    → All (λ s. s.id ≢ p.id) log
    → HasDistinctIds (log ++ (p ∷ []))
HasDistinctIds-snoc [] p h f = (tt, tt)
HasDistinctIds-snoc (s ∷ log) p (h, hs) (f, fs) =
    (All-snoc (λ t. s.id ≢ t.id) log p h f, HasDistinctIds-snoc log p hs fs)

-- An append keeps the log's ids distinct and its receipts the intent's own.
pub append_effect_receipt-IsLog :
    (host : Host) (log log' : List EffectReceipt) (r : EffectReceipt) (i : EffectIntent)
    → IsLog i log
    → append_effect_receipt host log r i ≡ ok log'
    → IsLog i log'
append_effect_receipt-IsLog host log log' r i w h =
    keep_log (append_effect_receipt-Appended host log log' r i h)
  where
    keep_log : Appended host log r i log' → IsLog i log'
    keep_log (replayed p old hp own f d e) = rw e w
    keep_log (added p hp own n e) = rw e (record {
      own = All-snoc (λ s. s.intent_id ≡ i.id) log p w.own own;
      distinct = HasDistinctIds-snoc log p w.distinct (fresh_ids host p log n);
    })

find-snoc :
    (host : Host) (p : EffectReceipt) (log : List EffectReceipt)
    → find (has_id host p) log ≡ none
    → find (has_id host p) (log ++ (p ∷ [])) ≡ some p
find-snoc host p [] n = rw (eq_refl p.id)
find-snoc host p (s ∷ log) n = ground (arith, find-snoc host p log, eq_iff s.id p.id)

-- Appending the same receipt again returns the same log, if the receipt has a digest at all.
pub append_effect_receipt-again :
    (host : Host) (log log' : List EffectReceipt) (r p : EffectReceipt) (i : EffectIntent)
    {d : String}
    → append_effect_receipt host log r i ≡ ok log'
    → parse_receipt host r ≡ ok p
    → receipt_digest host p ≡ ok d
    → append_effect_receipt host log' r i ≡ ok log'
unfolding append_effect_receipt
append_effect_receipt-again host log log' r p i {d} h hp hd =
    again (append_effect_receipt-Appended host log log' r i h)
  where
    found :
        (old q : EffectReceipt)
        → parse_receipt host r ≡ ok q
        → q.intent_id ≡ i.id
        → find (has_id host q) log' ≡ some old
        → receipt_digest host old ≡ receipt_digest host q
        → append_effect_receipt host log' r i ≡ ok log'
    found old q hq own f same =
        let e : q ≡ p = cc in
        let dq : receipt_digest host q ≡ ok d = rw e hd in
        let passed : (q.intent_id == i.id) ≡ true = (eq_iff q.intent_id i.id).1 own in
        rw (hq, passed, f, same, dq, eq_refl d) refl

    again : Appended host log r i log' → append_effect_receipt host log' r i ≡ ok log'
    again (replayed q old hq own f same e) = found old q hq own (rw e f) same
    again (added q hq own n e) = found q q hq own (rw e (find-snoc host q log n)) refl
