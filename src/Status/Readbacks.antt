-- ===== src/Status/Readbacks.antt =====
-- domain/status.ts, readbackSummaries: which readbacks count, and in which order.
pub mod Showing
use Prim.Native.Char.{Char, code}
use agx.Prelude.{
  ℕ, String, Bool, true, not, ◌&&◌, ◌||◌, Option, none, some, List, [], ◌∷◌, ◌++◌, map, any, leb,
  ltb, nat_eq, string_eq, ◌==◌, if◌then◌else◌,
}
use agx.Prelude.Text.{is_space, units, all_in, lex_before, code_units}
use agx.Evidence.Validating.{is_hex64}
use agx.Status.{Readback, kind_tag}

abbrev is_control : ℕ → Bool
is_control c = leb c 31 || c == 127

-- `/^\S{1,256}$/`, and no control character
abbrev pub is_resource_id : String → Bool
is_resource_id id =
    leb 1 (units id)
    && leb (units id) 256
    && all_in (λ c. not (is_space c)) id
    && all_in (λ c. not (is_control c)) id

abbrev pub digest_ok : Option String → Bool
digest_ok none = true
digest_ok (some digest) = is_hex64 digest

-- The checks that a value has the declared type hold of every value here.
unfoldable pub valid_readback : Readback → Bool
valid_readback r = is_resource_id r.resource_id && digest_ok r.digest

-- `kind:resourceId`; no kind has a colon
abbrev pub same_resource : Readback → Readback → Bool
same_resource r q = kind_tag r.kind == kind_tag q.kind && r.resource_id == q.resource_id

pub record Scan : Type 0 where
  pub valid : List Readback
  pub diagnostics : List String

-- The loop, after the readbacks that were valid.
unfoldable pub scan : List Readback → List Readback → Scan
scan valid [] = record { valid = valid; diagnostics = [] }
scan valid (r ∷ readbacks) =
    if valid_readback r && not (any (same_resource r) valid)
    then scan (valid ++ r ∷ []) readbacks
    else (let rest = scan valid readbacks in
        record rest { diagnostics = "STATUS-READBACK-INVALID" ∷ rest.diagnostics })

abbrev pub readback_before : Readback → Readback → Bool
readback_before r q =
    ltb (kind_tag r.kind) (kind_tag q.kind)
    || (kind_tag r.kind == kind_tag q.kind
        && lex_before (code_units r.resource_id) (code_units q.resource_id))

unfoldable pub insert_readback : Readback → List Readback → List Readback
insert_readback r [] = r ∷ []
insert_readback r (q ∷ readbacks) =
    let rest = insert_readback r readbacks in
    if readback_before q r then q ∷ rest else r ∷ q ∷ readbacks

unfoldable pub sort_readbacks : List Readback → List Readback
sort_readbacks [] = []
sort_readbacks (r ∷ readbacks) = insert_readback r (sort_readbacks readbacks)

lower_hex : Char → Char
lower_hex c =
    if code c == b'A'
    then "a"
    else if code c == b'B'
    then "b"
    else if code c == b'C'
    then "c"
    else if code c == b'D'
    then "d"
    else if code c == b'E'
    then "e"
    else if code c == b'F'
    then "f"
    else c

-- `digest.toLowerCase()` of a digest, whose characters are hexadecimal digits
unfoldable pub lower_digest : String → String
unfolding lower_hex
lower_digest String.[] = String.[]
lower_digest (String.◌∷◌ c s) = String.◌∷◌ (lower_hex c) (lower_digest s)

abbrev lower_some : Option String → Option String
lower_some none = none
lower_some (some digest) = some (lower_digest digest)

abbrev pub summary_of : Readback → Readback
summary_of r = record r { digest = lower_some r.digest }

pub record Summaries : Type 0 where
  pub resources : List Readback
  pub diagnostics : List String

unfoldable pub readback_summaries : List Readback → Summaries
readback_summaries readbacks =
    let scanned = scan [] readbacks in
    record {
      resources = map summary_of (sort_readbacks scanned.valid);
      diagnostics = scanned.diagnostics;
    }
