-- ===== src/Http/Request/Query.antt =====
-- Reading back query parameters and headers that were written out.
use workplace.Common.{All, List, [], ap, arith, false, refl, ℕ, ◌++◌, ◌∙◌, ◌∷◌, ◌≡◌}
use workplace.Common.Text.{Lacks, Text, TextMap, cut-append, insert, skip_space, trim_end}
use workplace.Http.Request.{HttpRequest, add_header, add_pair, add_pairs, is_empty}
use workplace.Http.Request.{set_query_path_parameters, split_on}

-- `key1=value1&key2=value2`.
unfoldable pub print_pairs : List (Text × Text) → Text
print_pairs [] = []
print_pairs ((k, v) ∷ []) = k ++ b'=' ∷ v
print_pairs ((k, v) ∷ p ∷ ps) = (k ++ b'=' ∷ v) ++ b'&' ∷ print_pairs (p ∷ ps)

-- Later pairs win over earlier ones.
unfoldable pub insert_all : List (Text × Text) → TextMap → TextMap
insert_all [] m = m
insert_all ((k, v) ∷ ps) m = insert_all ps (insert k v m)

-- A key holds neither `=` nor `&`, and a value no `&`.
abbrev pub Plain : Text × Text → Type 0
Plain (k, v) = Lacks b'=' k × Lacks b'&' k × Lacks b'&' v

Lacks-append : (c : ℕ) (s t : Text) → Lacks c s → Lacks c t → Lacks c (s ++ t)
Lacks-append c [] t h k = k
Lacks-append c (a ∷ s) t h k = (h.0, Lacks-append c s t h.1 k)

split_on-Lacks : (c : ℕ) (s : Text) → Lacks c s → split_on c s ≡ s ∷ []
unfolding split_on
split_on-Lacks c [] h = refl
split_on-Lacks c (a ∷ s) h = ground (arith, split_on-Lacks c s h.1)

split_on-append : (c : ℕ) (s t : Text) → Lacks c s → split_on c (s ++ c ∷ t) ≡ s ∷ split_on c t
unfolding split_on
split_on-append c [] t h = ground arith
split_on-append c (a ∷ s) t h = ground (arith, split_on-append c s t h.1)

add_pair_lem : (k v : Text) (m : TextMap) → Lacks b'=' k → add_pair (k ++ b'=' ∷ v) m ≡ insert k v m
unfolding add_pair
add_pair_lem k v m h = rw (cut-append b'=' k v h, add_pair)

-- A printed pair has no separator in it.
pair-Lacks : (k v : Text) → Plain (k, v) → Lacks b'&' (k ++ b'=' ∷ v)
pair-Lacks k v h = Lacks-append b'&' k (b'=' ∷ v) h.1 ((λ e. absurd (omega arith)), h.2)

print_pairs-more :
    (k v : Text) (q : Text × Text) (ps : List (Text × Text))
    → print_pairs ((k, v) ∷ q ∷ ps) ≡ (k ++ b'=' ∷ v) ++ b'&' ∷ print_pairs (q ∷ ps)
unfolding print_pairs
print_pairs-more k v q ps = refl

print_pairs-one : (k v : Text) → print_pairs ((k, v) ∷ []) ≡ k ++ b'=' ∷ v
unfolding print_pairs
print_pairs-one k v = refl

add_pairs-print :
    (ps : List (Text × Text)) (p : Text × Text) (m : TextMap)
    → Plain p
    → All Plain ps
    → add_pairs (split_on b'&' (print_pairs (p ∷ ps))) m ≡ insert_all (p ∷ ps) m
unfolding add_pairs insert_all
add_pairs-print [] (k, v) m h hs =
    ap (λ t. add_pairs (split_on b'&' t) m) (print_pairs-one k v)
    ∙ ap (λ l. add_pairs l m) (split_on-Lacks b'&' (k ++ b'=' ∷ v) (pair-Lacks k v h))
    ∙ add_pair_lem k v m h.0
add_pairs-print (q ∷ ps) (k, v) m h hs =
    ap (λ t. add_pairs (split_on b'&' t) m) (print_pairs-more k v q ps)
    ∙ ap (λ l. add_pairs l m)
        (split_on-append b'&' (k ++ b'=' ∷ v) (print_pairs (q ∷ ps)) (pair-Lacks k v h))
    ∙ ap (λ n. add_pairs (split_on b'&' (print_pairs (q ∷ ps))) n) (add_pair_lem k v m h.0)
    ∙ add_pairs-print ps q (insert k v m) hs.0 hs.1

print_pairs-ne :
    (p : Text × Text) (ps : List (Text × Text)) → is_empty (print_pairs (p ∷ ps)) ≡ false
unfolding print_pairs
print_pairs-ne ([], v) [] = refl
print_pairs-ne ((a ∷ k), v) [] = refl
print_pairs-ne ([], v) (q ∷ ps) = refl
print_pairs-ne ((a ∷ k), v) (q ∷ ps) = refl

-- A query text printed from key and value pairs is read back as those pairs, in their order, so a
-- later value of one key wins; keys hold neither `=` nor `&`, and values no `&`. The request keeps
-- its other fields.
pub set_query-print :
    (r : HttpRequest) (p : Text × Text) (ps : List (Text × Text))
    → All Plain (p ∷ ps)
    → set_query_path_parameters r (print_pairs (p ∷ ps))
      ≡ record r { query_parameters = insert_all (p ∷ ps) r.query_parameters }
unfolding set_query_path_parameters
set_query-print r p ps h =
    rw (print_pairs-ne p ps) (
      ap (λ m. record r { query_parameters = m }) (add_pairs-print ps p r.query_parameters h.0 h.1))

-- No space at either end.
abbrev pub Trimmed : Text → Type 0
Trimmed v = (skip_space v ≡ v) × (trim_end v ≡ v)

-- A header value is stored without the space that was written behind the colon.
pub add_header-print :
    (r : HttpRequest) (field value : Text)
    → Trimmed value
    → add_header r field (b' ' ∷ value) ≡ record r { headers = insert field value r.headers }
unfolding add_header skip_space
add_header-print r field value h =
    ap (λ v. record r { headers = insert field v r.headers }) (ap trim_end h.0 ∙ h.1)
