-- ===== src/PodController/Names.antt =====
-- pkg/controllers/pod.go, keys of queues: those of pods, and those with a UID behind a slash. Texts
-- are bytes.
use clusterrouter.Base.{
  ℕ, suc, ◌+◌, ◌==◌, ◌≡◌, ◌≢◌, ap, ap₂, refl, Option, none, some, List, [], ◌∷◌, ◌++◌, All, take,
  drop, length, take-append, arith, if◌then◌else◌, ℕ_discrete, length-append,
}

abbrev pub slash : ℕ
slash = 47

unfoldable pub bytes_dec : Discrete (List ℕ)
bytes_dec [] [] = yes refl
bytes_dec [] (d ∷ t) = no (λ e. cc)
bytes_dec (c ∷ s) [] = no (λ e. cc)
bytes_dec (c ∷ s) (d ∷ t) = elim (ℕ_discrete c d) [
  | no n ↦ no (λ e. n cc)
  | yes p ↦ elim (bytes_dec s t) [ no n ↦ no (λ e. n cc) | yes q ↦ yes (ap₂ (◌∷◌) p q) ]
]

-- The index of the first byte, or of the last slash behind it.
unfoldable pub last_step : ℕ → Option ℕ → Option ℕ
last_step c (some i) = some (i + 1)
last_step c none = if c == slash then some 0 else none

-- `strings.LastIndex(text, "/")`.
unfoldable pub last_index : List ℕ → Option ℕ
unfolding last_step
last_index [] = none
last_index (c ∷ text) = last_step c (last_index text)

-- `fmt.Sprintf("%v/%v", key, uid)`.
unfoldable pub uid_key : List ℕ → List ℕ → List ℕ
uid_key key uid = key ++ slash ∷ uid

-- The two slices, by the index: without a slash it is -1, and the second one panics.
unfoldable pub cut_at : List ℕ → Option ℕ → Option (List ℕ × List ℕ)
cut_at key none = none
cut_at key (some i) = some (drop (suc i) key, take i key)

-- `getUIDAndMetaNamespaceKey`.
unfoldable pub get_uid_and_meta_namespace_key : List ℕ → Option (List ℕ × List ℕ)
unfolding cut_at last_index
get_uid_and_meta_namespace_key key = cut_at key (last_index key)

abbrev pub HasNoSlash : List ℕ → Type 0
HasNoSlash = All (λ c. c ≢ slash)

last_index-HasNoSlash : (text : List ℕ) → HasNoSlash text → last_index text ≡ none
unfolding last_index last_step
last_index-HasNoSlash [] h = refl
last_index-HasNoSlash (c ∷ text) h = rw (last_index-HasNoSlash text h.1) (ground arith)

last_index-uid_key :
    (key uid : List ℕ) → HasNoSlash uid → last_index (uid_key key uid) ≡ some (length key)
unfolding last_index last_step uid_key
last_index-uid_key [] uid h = rw (last_index-HasNoSlash uid h) refl
last_index-uid_key (c ∷ key) uid h = rw (last_index-uid_key key uid h) (ap some (omega arith))

drop_behind : (pre : List ℕ) (x : ℕ) (s : List ℕ) → drop (suc (length pre)) (pre ++ x ∷ s) ≡ s
drop_behind [] x s = refl
drop_behind (y ∷ pre) x s = drop_behind pre x s

-- A UID without a slash is read back from the key that it was put in, and so is the key of the pod.
pub get_uid_and_meta_namespace_key-uid_key :
    (key uid : List ℕ)
    → HasNoSlash uid
    → get_uid_and_meta_namespace_key (uid_key key uid) ≡ some (uid, key)
unfolding get_uid_and_meta_namespace_key cut_at uid_key
get_uid_and_meta_namespace_key-uid_key key uid h =
    rw (last_index-uid_key key uid h)
      (ap some (ap₂ (λ a b. (a, b)) (drop_behind key slash uid) (take-append key (slash ∷ uid))))

pub uid_key-differs : (key uid : List ℕ) → uid_key key uid ≢ key
unfolding uid_key
uid_key-differs key uid e = omega (arith, ap length e, length-append key (slash ∷ uid))
