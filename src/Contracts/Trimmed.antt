-- ===== src/Contracts/Trimmed.antt =====
-- packages/contracts/src: what the schemas of texts make of a text that they accept.
use arc_db.Base.{String, Option, none, some, List, [], ◌∷◌, map, ◌≡◌, ok, >>=-eq-ok, arith}
use arc_db.Host.{Host}
use arc_db.Contracts.Primitives.{parse_identifier, parse_option, parse_list, parse_iso_date_time}
use arc_db.Contracts.Lineage.{parse_text}

abbrev pub map_option : (String → String) → Option String → Option String
map_option f none = none
map_option f (some s) = some (f s)

module _ (host : Host) where
  open host use {trim}

  pub parse_identifier-trim :
      (s : String) {t : String} → parse_identifier host s ≡ ok t → t ≡ trim s
  unfolding parse_identifier
  parse_identifier-trim s h = ground arith

  pub parse_text-trim : (s : String) {t : String} → parse_text host s ≡ ok t → t ≡ trim s
  unfolding parse_text
  parse_text-trim s h = ground arith

  pub parse_iso_date_time-same :
      (s : String) {t : String} → parse_iso_date_time host s ≡ ok t → t ≡ s
  unfolding parse_iso_date_time
  parse_iso_date_time-same s h = ground arith

  pub parse_list-trim :
      (ss : List String) {ts : List String}
      → parse_list (parse_identifier host) ss ≡ ok ts
      → ts ≡ map trim ss
  parse_list-trim [] h = cc
  parse_list-trim (s ∷ ss) h =
      let (t, p, h1) = >>=-eq-ok (parse_identifier host s) _ h in
      let (ts, q, h2) = >>=-eq-ok (parse_list (parse_identifier host) ss) _ h1 in
      let a = parse_identifier-trim s p in let b = parse_list-trim ss q in cc

  pub parse_option-trim :
      (o : Option String) {u : Option String}
      → parse_option (parse_identifier host) o ≡ ok u
      → u ≡ map_option trim o
  parse_option-trim none h = cc
  parse_option-trim (some s) h =
      let (t, p, h1) = >>=-eq-ok (parse_identifier host s) _ h in
      let a = parse_identifier-trim s p in cc
