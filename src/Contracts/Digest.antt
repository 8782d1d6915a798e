-- ===== src/Contracts/Digest.antt =====
-- packages/contracts/src/digest.ts: canonical JSON and the digests over it. A cyclic value has no
-- counterpart here, so the check of `ancestors` has none either.
pub mod Order
use arc_db.Base.{
  ℕ, suc, zero, String, Bool, true, false, Option, none, some, List, [], ◌∷◌, ◌++◌, map,
  if◌then◌else◌, Result, ok, err, ◌>>=◌, or_else, ◌+◌,
}
use arc_db.Base.Sort.{sort}
use arc_db.Host.{Host}
use arc_db.Contracts.Errors.{Fault, canonicalization}
use arc_db.Contracts.Primitives.{concat}

-- A value as `typeof` and the prototype tell it apart. A finite number is given by its JSON text.
mutual
  pub data Value : Type 0 where
    null : Value
    bool : Bool → Value
    num : String → Value
    non_finite : Value
    str : String → Value
    arr : Items → Value
    obj : Fields → Value
    -- an object with another prototype than Object.prototype or null
    exotic : Value
    -- undefined, bigint, function or symbol, by its `typeof`
    unsupported : String → Value

  pub data Items : Type 0 where
    nil : Items
    cons : Value → Items → Items
    -- an index with no element, in a sparse array
    gap : Items → Items

  pub data Fields : Type 0 where
    end : Fields
    field : String → Value → Fields → Fields

-- `items.join(",")`
abbrev pub join : List String → String
join [] = ""
join (s ∷ []) = s
join (s ∷ t ∷ ss) = concat (s ∷ "," ∷ join (t ∷ ss) ∷ [])

abbrev pub Entry : Type 0
Entry = String × Result Fault String

-- The first entry that threw, or all the texts.
abbrev pub sequence : List Entry → Result Fault (List String)
sequence [] = ok []
sequence ((k, r) ∷ es) = do s ← r; ss ← sequence es; ok (s ∷ ss)

module _ (host : Host) where
  open host use {json_string, index_text, string_leb, sha256_hex}

  abbrev pub entry_le : Entry → Entry → Bool
  entry_le a b = string_leb a.0 b.0

  abbrev pub in_braces : List Entry → Result Fault String
  in_braces es = do ss ← sequence es; ok (concat ("{" ∷ join ss ∷ "}" ∷ []))

  abbrev pub in_brackets : Result Fault (List String) → Result Fault String
  in_brackets r = do ss ← r; ok (concat ("[" ∷ join ss ∷ "]" ∷ []))

  -- `"key":text`
  abbrev pub keyed : String → Result Fault String → Result Fault String
  keyed key r = do s ← r; ok (concat (json_string key ∷ ":" ∷ s ∷ []))

  unfoldable mutual
    unfolding sort

    pub canonicalize_value : Value → String → Result Fault String
    canonicalize_value null path = ok "null"
    canonicalize_value (bool true) path = ok "true"
    canonicalize_value (bool false) path = ok "false"
    canonicalize_value (num text) path = ok text
    canonicalize_value non_finite path =
        err (canonicalization "Non-finite numbers are not canonical JSON" path)
    canonicalize_value (str s) path = ok (json_string s)
    canonicalize_value (arr items) path = in_brackets (canonicalize_items items path 0)
    canonicalize_value (obj fields) path =
        in_braces (sort entry_le (canonicalize_fields fields path))
    canonicalize_value exotic path =
        err (canonicalization "Only plain objects are canonicalizable" path)
    canonicalize_value (unsupported type) path =
        err (canonicalization (concat ("Unsupported " ∷ type ∷ " value" ∷ [])) path)

    pub canonicalize_items : Items → String → ℕ → Result Fault (List String)
    canonicalize_items nil path index = ok []
    canonicalize_items (cons v items) path index = do
      s ← canonicalize_value v (concat (path ∷ "[" ∷ index_text index ∷ "]" ∷ []))
      ss ← canonicalize_items items path (suc index)
      ok (s ∷ ss)
    -- `map` passes over an index with no element, so its own test of `index in value` is never
    -- made at one, and `join` puts nothing there.
    canonicalize_items (gap items) path index = do
      ss ← canonicalize_items items path (suc index)
      ok ("" ∷ ss)

    -- The entries with the text of each; sorting them before or after is the same, as no child
    -- depends on another.
    pub canonicalize_fields : Fields → String → List Entry
    canonicalize_fields end path = []
    canonicalize_fields (field key v fields) path =
        (key, keyed key (canonicalize_value v (concat (path ∷ "." ∷ key ∷ []))))
        ∷ canonicalize_fields fields path

  unfoldable pub canonicalize : Value → Result Fault String
  unfolding canonicalize_value
  canonicalize v = canonicalize_value v "$"

  unfoldable pub canonical_digest : Value → String → Result Fault String
  unfolding canonicalize
  canonical_digest v domain = do
    text ← canonicalize v
    ok (
        concat (
          "sha256:"
          ∷ sha256_hex (concat ("arcdb-canonical-v1\0" ∷ domain ∷ "\0" ∷ text ∷ []))
          ∷ []))

-- `value ?? null` of an optional text.
abbrev pub str_or_null : Option String → Value
str_or_null none = null
str_or_null (some s) = str s

abbrev pub strings : List String → Items
strings [] = nil
strings (s ∷ ss) = cons (str s) (strings ss)

pub record FingerprintInput : Type 0 where
  pub subject_version_id : String
  pub verifier_type : String
  pub verifier_version : String
  pub environment_digest : Option String
  pub dependency_digests : List String
  pub policy_version : Option String

module _ (host : Host) where
  open host use {string_leb}

  abbrev pub fingerprint_scope : FingerprintInput → Value
  fingerprint_scope input = obj (
      field "dependencyDigests" (arr (strings (sort string_leb input.dependency_digests))) (
        field "environmentDigest" (str_or_null input.environment_digest) (
          field "policyVersion" (str_or_null input.policy_version) (
            field "subjectVersionId" (str input.subject_version_id) (
              field "verifierType" (str input.verifier_type)
                (field "verifierVersion" (str input.verifier_version) end))))))

  unfoldable pub evidence_fingerprint : FingerprintInput → Result Fault String
  unfolding canonical_digest
  evidence_fingerprint input = canonical_digest host (fingerprint_scope input) "evidence-scope"
