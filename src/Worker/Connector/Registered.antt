-- ===== src/Worker/Connector/Registered.antt =====
-- apps/worker/src/connectors/registry.ts: what holds of the connectors that a registry has admitted,
-- and of the one that it resolves for an intent.
use mathlib.Core.List.{Memᴰ}
use arc_db.Base.{
  Bool, true, false, not, ◌≡◌, refl, ◌&&◌, Option, none, some, ◌∷◌, find, is_some, All, ok, arith,
  >>=-eq-ok, throw_if, throw_if-eq-ok, or_throw, or_throw-eq-ok, eq_iff,
}
use arc_db.Base.Members.{mem_of_find}
use arc_db.Host.{Host}
use arc_db.Contracts.Effect.{Capabilities, r0, r3, same_reversibility}
use arc_db.Worker.Connector.{
  Intent, Connector, Registry, is_automatic, is_critical, check_capabilities, register, resolve,
  resolve_for_intent, same_capabilities, has_type, is_allowed,
}

-- An automatic connector takes idempotency keys, can be queried by them and is fenced, and has a
-- handler if it says that it compensates; a manual one asks a person.
pub record IsSafe (c : Connector) : Type 0 where
  pub automatic :
      is_automatic c ≡ true
      → (c.capabilities.idempotency_key ≡ true)
        × (c.capabilities.query_by_idempotency_key ≡ true)
        × (c.capabilities.fencing_token ≡ true)
        × (c.capabilities.compensation ≡ true → is_some c.compensate ≡ true)
  pub manual : is_automatic c ≡ false → c.capabilities.human_approval ≡ true

check_capabilities-IsSafe : (c : Connector) {u : Unit} → check_capabilities c ≡ ok u → IsSafe c
unfolding check_capabilities
check_capabilities-IsSafe c h = record {
  automatic = λ a. (ground arith, ground arith, ground arith, λ k. ground arith);
  manual = λ m. ground arith;
}

-- A registry whose connectors are all safe stays so when it admits another; the connector admitted is
-- safe, is on the allowlist if there is one, and has a type that no other has.
pub register-IsSafe :
    (r q : Registry) (c : Connector)
    → All IsSafe r.connectors
    → register r c ≡ ok q
    → All IsSafe q.connectors
      × (q.connectors ≡ c ∷ r.connectors)
      × (q.allowlist ≡ r.allowlist)
      × (is_allowed r.allowlist c.type ≡ true)
      × (find (has_type c.type) r.connectors ≡ none)
unfolding register
register-IsSafe r q c safe h =
    let (_, single, h₁) =
      >>=-eq-ok (throw_if (is_some (find (has_type c.type) r.connectors)) _) _ h in
    let (_, allowed, h₂) = >>=-eq-ok (throw_if (not (is_allowed r.allowlist c.type)) _) _ h₁ in
    let (_, able, h₃) = >>=-eq-ok (check_capabilities c) _ h₂ in
    let added : record r { connectors = c ∷ r.connectors } ≡ q = cc in
    let new = check_capabilities-IsSafe c able in
    rw (← added) ((new, safe), refl, refl, ground arith, vacant _ (throw_if-eq-ok _ _ single))
  where
    vacant : (o : Option Connector) → is_some o ≡ false → o ≡ none
    vacant none e = refl
    vacant (some d) e = cc

-- What a connector must be for an intent.
pub record Suits (host : Host) (r : Registry) (i : Intent) (c : Connector) : Type 0 where
  pub listed : Memᴰ c r.connectors
  pub type : c.type ≡ i.connector_type
  pub reversibility : same_reversibility c.capabilities.reversibility i.reversibility ≡ true
  pub undo : same_reversibility i.reversibility r0 ≡ true → c.capabilities.compensation ≡ true
  pub conditional : is_some i.base_resource_version ≡ true → c.capabilities.conditional_write ≡ true
  pub person : is_critical i.risk_level ≡ true → c.capabilities.human_approval ≡ true
  pub irreversible :
      same_reversibility i.reversibility r3 ≡ true → c.capabilities.human_approval ≡ true
  pub fenced : is_automatic c ≡ true → is_some i.fencing_token ≡ true
  pub snapshot :
      (s : Capabilities) × (i.connector_capabilities ≡ some s)
      × (same_capabilities host c.capabilities s ≡ true)

-- The connector that is resolved for an intent is a registered one of the intent's type, with the
-- capabilities and the reversibility that the intent was prepared with, compensation for R0,
-- conditional writes for a base version, human approval for critical risk and for R3, and a fenced
-- intent if it writes automatically.
pub resolve_for_intent-Suits :
    (host : Host) (r : Registry) (i : Intent) (c : Connector)
    → resolve_for_intent host r i ≡ ok c
    → Suits host r i c
unfolding resolve_for_intent resolve
resolve_for_intent-Suits host r i c h =
    let (d, hd, h₁) = >>=-eq-ok (or_throw (find (has_type i.connector_type) r.connectors) _) _ h in
    let (s, hs, h₂) = >>=-eq-ok (or_throw i.connector_capabilities _) _ h₁ in
    let (_, same, h₃) =
      >>=-eq-ok (throw_if (not (same_capabilities host d.capabilities s)) _) _ h₂ in
    let (_, rev, h₄) =
      >>=-eq-ok (throw_if (not (same_reversibility d.capabilities.reversibility i.reversibility)) _)
        _ h₃ in
    let (_, undo, h₅) =
      >>=-eq-ok
        (throw_if (same_reversibility i.reversibility r0 && not d.capabilities.compensation) _) _
        h₄ in
    let (_, cond, h₆) =
      >>=-eq-ok
        (throw_if (is_some i.base_resource_version && not d.capabilities.conditional_write) _) _
        h₅ in
    let (_, crit, h₇) =
      >>=-eq-ok (throw_if (is_critical i.risk_level && not d.capabilities.human_approval) _) _ h₆ in
    let (_, three, h₈) =
      >>=-eq-ok
        (throw_if (same_reversibility i.reversibility r3 && not d.capabilities.human_approval) _) _
        h₇ in
    let (_, fenced, last) =
      >>=-eq-ok (throw_if (is_automatic d && not (is_some i.fencing_token)) _) _ h₈ in
    let e : d ≡ c = cc in
    let (listed, typed) =
      mem_of_find (has_type i.connector_type) r.connectors (or_throw-eq-ok _ _ hd) in
    rw (← e) (record {
      listed = listed;
      type = (eq_iff d.type i.connector_type).0 typed;
      reversibility = off _ (throw_if-eq-ok _ _ rev);
      undo = λ k. implied _ _ (throw_if-eq-ok _ _ undo) k;
      conditional = λ k. implied _ _ (throw_if-eq-ok _ _ cond) k;
      person = λ k. implied _ _ (throw_if-eq-ok _ _ crit) k;
      irreversible = λ k. implied _ _ (throw_if-eq-ok _ _ three) k;
      fenced = λ k. implied _ _ (throw_if-eq-ok _ _ fenced) k;
      snapshot = (s, or_throw-eq-ok _ _ hs, off _ (throw_if-eq-ok _ _ same));
    })
  where
    off : (b : Bool) → not b ≡ false → b ≡ true
    off true e = refl
    off false e = cc

    implied : (a b : Bool) → a && not b ≡ false → a ≡ true → b ≡ true
    implied a true e k = refl
    implied a false e k = ground arith
