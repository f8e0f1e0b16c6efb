-- ===== src/Reader/Sync/FirstSync.antt =====
-- The first position of a sync marker, by a search that tries every position.
use mathlib.Core.Option
use logjet.Base.{
  ℕ, suc, ◌+◌, ◌≡◌, ◌≢◌, refl, sym, ap, ◌∙◌, Bool, true, false, ◌&&◌, List, [], ◌∷◌, ◌++◌, Option,
  none, some, ◌==◌, ==_iff, if◌then◌else◌, length, get_elem?, All, arith,
}

abbrev pub starts_with : List ℕ → List ℕ → Bool
starts_with [] bs = true
starts_with (m ∷ ms) [] = false
starts_with (m ∷ ms) (b ∷ bs) = b == m && starts_with ms bs

-- The first position at which the marker stands.
unfoldable pub first_sync : List ℕ → List ℕ → Option ℕ
first_sync marker [] = none
first_sync marker (b ∷ bs) =
    let later = Option.map suc (first_sync marker bs) in
    if starts_with marker (b ∷ bs) then some 0 else later

abbrev pub plus : ℕ → Option ℕ → Option ℕ
plus k none = none
plus k (some i) = some (k + i)

pub plus-zero : (o : Option ℕ) → plus 0 o ≡ o
plus-zero none = refl
plus-zero (some i) = ap some (omega arith)

pub plus-suc : (k : ℕ) (o : Option ℕ) → Option.map suc (plus k o) ≡ plus (suc k) o
plus-suc k none = refl
plus-suc k (some i) = ap some (omega arith)

-- The marker is `head ∷ tail`, and its first byte does not come again.
module _ (head : ℕ) (tail : List ℕ) where
  abbrev pub marker : List ℕ
  marker = head ∷ tail

  pub skip_one :
      (b : ℕ) (bs : List ℕ)
      → b ≢ head
      → first_sync marker (b ∷ bs) ≡ Option.map suc (first_sync marker bs)
  unfolding first_sync
  skip_one b bs h = ground (arith, ==_iff b head)

  -- No occurrence begins at a byte that is not the marker's first.
  pub skip :
      (ds xs : List ℕ)
      → All (λ d. d ≢ head) ds
      → first_sync marker (ds ++ xs) ≡ plus (length ds) (first_sync marker xs)
  skip [] xs h = sym (plus-zero (first_sync marker xs))
  skip (d ∷ ds) xs (hd, hds) =
      skip_one d (ds ++ xs) hd
      ∙ ap (Option.map suc) (skip ds xs hds)
      ∙ plus-suc (length ds) (first_sync marker xs)

pub mismatch :
    (done todo : List ℕ) (t c : ℕ) (rest : List ℕ)
    → c ≢ t
    → starts_with (done ++ (t ∷ todo)) (done ++ (c ∷ rest)) ≡ false
mismatch [] todo t c rest h = ground (arith, ==_iff c t)
mismatch (d ∷ done) todo t c rest h = ground (arith, mismatch done todo t c rest h)

pub too_short : (done todo : List ℕ) (t : ℕ) → starts_with (done ++ (t ∷ todo)) done ≡ false
too_short [] todo t = refl
too_short (d ∷ done) todo t = ground (arith, too_short done todo t)

pub starts_with_self : (m rest : List ℕ) → starts_with m (m ++ rest) ≡ true
starts_with_self [] rest = refl
starts_with_self (b ∷ m) rest = ground (arith, starts_with_self m rest)

pub get_elem?-middle :
    (done todo : List ℕ) (t : ℕ) → get_elem? (done ++ (t ∷ todo)) (length done) ≡ some t
get_elem?-middle [] todo t = refl
get_elem?-middle (d ∷ done) todo t = get_elem?-middle done todo t

pub plus-plus : (k l : ℕ) (o : Option ℕ) → plus k (plus l o) ≡ plus (k + l) o
plus-plus k l none = refl
plus-plus k l (some i) = ap some (omega arith)

pub plus-map-suc : (k : ℕ) (o : Option ℕ) → plus k (Option.map suc o) ≡ plus (suc k) o
plus-map-suc k none = refl
plus-map-suc k (some i) = ap some (omega arith)
