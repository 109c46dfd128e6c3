-- ===== src/Tar/PaxHeaders/Lookup.antt =====
-- What is found in the headers that `parsePAX` (tar/reader.go) answers.
use arkive.Common.{
  ◌^◌, ◌<◌, ◌≡◌, refl, ap, ◌∙◌, Option, none, some, [], ◌∷◌, Bytes, if◌then◌else◌, bytes_eq, length,
  All,
}
use arkive.Common.Text.{lookup, lookup-insert, lookup-delete}
use arkive.Common.Go.{ok}
use arkive.Tar.PaxHeaders.{Headers, assign, parse_pax}
use arkive.Tar.PaxHeaders.Parse.{pax_body, IsPaxPair, assign_all, parse_pax-pax_body}

-- An empty value stands for none.
abbrev pub non_empty : Bytes → Option Bytes
non_empty [] = none
non_empty (c ∷ v) = some (c ∷ v)

-- The value that the last pair for `k` gives, or `cur` if there is no such pair.
abbrev pub last_value : Bytes → Option Bytes → Headers → Option Bytes
last_value k cur [] = cur
last_value k cur ((j, v) ∷ ps) = last_value k (if bytes_eq j k then non_empty v else cur) ps

lookup-assign :
    (m : Headers) (j k v : Bytes)
    → lookup k (assign m j v) ≡ (if bytes_eq j k then non_empty v else lookup k m)
unfolding assign
lookup-assign m j k [] = lookup-delete j k m
lookup-assign m j k (c ∷ v) = lookup-insert j k (c ∷ v) m

lookup-assign_all :
    (k : Bytes) (ps : Headers) (m : Headers)
    → lookup k (assign_all m ps) ≡ last_value k (lookup k m) ps
lookup-assign_all k [] m = refl
lookup-assign_all k ((j, v) ∷ ps) m =
    lookup-assign_all k ps (assign m j v) ∙ ap (λ x. last_value k x ps) (lookup-assign m j k v)

-- Take any pairs whose keys are not empty, hold no equals sign and are neither `GNU.sparse.offset`
-- nor `GNU.sparse.numbytes`, with keys, values and records shorter than 2^59 bytes together. From
-- the records of these pairs `parsePAX` reads headers in which every key has the value of its last
-- pair, and no value where that pair's is empty or there is none.
pub parse_pax-lookup :
    (ps : Headers) (k : Bytes)
    → All IsPaxPair ps
    → length (pax_body ps) < 2 ^ 59
    → (m : Headers) × (parse_pax (pax_body ps) ≡ ok m) × (lookup k m ≡ last_value k none ps)
parse_pax-lookup ps k h small = (
  assign_all [] ps,
  parse_pax-pax_body ps h small,
  lookup-assign_all k ps [] ∙ (unfold lookup in refl),
)
