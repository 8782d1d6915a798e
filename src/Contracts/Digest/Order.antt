-- ===== src/Contracts/Digest/Order.antt =====
-- packages/contracts/src/digest.ts: the fingerprint of evidence and the order of its dependencies.
use mathlib.Core.List.{Permᴰ}
use arc_db.Base.{String, ◌≡◌, List}
use arc_db.Base.Sort.{sort_of_perm}
use arc_db.Host.{Host, IsLawful}
use arc_db.Contracts.Digest.{FingerprintInput, evidence_fingerprint}

-- Evidence that lists its dependencies in another order has the same fingerprint.
pub evidence_fingerprint_of_perm :
    (host : Host) (input : FingerprintInput) {deps : List String}
    → IsLawful host
    → Permᴰ input.dependency_digests deps
    → evidence_fingerprint host (record input { dependency_digests = deps })
      ≡ evidence_fingerprint host input
unfolding evidence_fingerprint
evidence_fingerprint_of_perm host input law p = rw (sort_of_perm host.string_leb law.string_order p)
