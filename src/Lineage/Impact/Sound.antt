-- ===== src/Lineage/Impact/Sound.antt =====
-- packages/lineage/src/impact.ts: no version is affected that the edges do not lead to.
use mathlib.Core.List.{Memᴰ}
use arc_db.Base.{ℕ, String, some, List, [], ◌∷◌, ◌≡◌, ok, ◌==◌, eq_iff, Bool-cases, inl, inr, arith}
use arc_db.Host.{Host}
use arc_db.Contracts.Lineage.{Selector, Edge}
use arc_db.Lineage.Impact.{Input, State, AffectedNode, lookup, loop, initial}
use arc_db.Lineage.Impact.Steps.{IsVocabulary}
use arc_db.Lineage.Impact.Rounds.{NodesIn, visit-NodesIn, loop-keeps}

-- The versions that the edges lead to from the source.
pub data Leads (edges : List Edge) (source : String) : String → Type 0 where
  here : Leads edges source source
  along :
      (e : Edge)
      → Memᴰ e edges
      → Leads edges source e.source_version_id
      → Leads edges source e.target_version_id

abbrev pub AnySelector : Selector → Type 0
AnySelector s = Unit

pub any_vocabulary : (host : Host) (input : Input) → IsVocabulary host input AnySelector
any_vocabulary host input = record {
  has_unknown = tt;
  parsed = λ s t p h. tt;
  transferred = λ name f e c r ps h k g q s m. tt;
}

module _ (host : Host) (input : Input) where
  pub initial-NodesIn :
      (Q : String → Type 0) (P : Selector → Type 0) (source : String) (selectors : List Selector)
      → Q source
      → ((s : Selector) → Memᴰ s selectors → P s)
      → NodesIn host input Q P (initial host input source selectors)
  initial-NodesIn Q P source selectors q known id node h = elim (Bool-cases (source == id)) [
    | inl same ↦
        let e = (eq_iff source id).0 same in (rw (← e) q, λ s m. known s (ground (arith, m)))
    | inr other ↦ ground arith
  ]

  -- Every version that the analysis affects can be reached from the source along the edges.
  pub loop_affected-Leads :
      (edges : List Edge) (fuel : ℕ) (source : String) (selectors : List Selector) (final : State)
      (id : String) (node : AffectedNode)
      → loop host input edges fuel (source ∷ []) (initial host input source selectors)
        ≡ some (ok final)
      → lookup id final.affected ≡ some node
      → Leads edges source id
  loop_affected-Leads edges fuel source selectors final id node h found =
      (loop-keeps host input (NodesIn host input (Leads edges source) AnySelector) edges fuel
        (source ∷ []) (initial host input source selectors)
        (λ v rest a b n run.
          visit-NodesIn host input (any_vocabulary host input) (Leads edges source) edges v _ b
            (λ e m l. Leads.along e m l) n run)
        (initial-NodesIn (Leads edges source) AnySelector source selectors Leads.here (λ s m. tt)) h
        id node found).0
