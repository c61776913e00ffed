-- ===== src/Cli/Table/Rows.antt =====
-- The two loops of `newMeshTableRow` in magefile.go.
use k_mesh.Base.{
  ℕ, zero, suc, ◌+◌, ◌-◌, ◌<◌, ◌≤◌, ◌≡◌, refl, sym, ap, ◌∙◌, inl, inr, some, List, [], ◌∷◌, arith,
  ltb, if◌then◌else◌, length, get_elem?, Bool-cases, ltb→lt, ltb→le,
}
use Prim.Native.Nat.{min, max}
use k_mesh.Base.Text.{Text, text}
use k_mesh.Cli.{Terminal}
use k_mesh.Cli.Table.{Row, spread, mesh_rows}

get_elem?-length : (xs : List Text) (i : ℕ) → i < length xs → (x : Text) × (get_elem? xs i ≡ some x)
get_elem?-length [] i h = absurd (omega arith)
get_elem?-length (x ∷ xs) zero h = (x, refl)
get_elem?-length (x ∷ xs) (suc i) h = get_elem?-length xs i (omega arith)

-- Row `j` takes the short list's entry at `c + j`, or its last one.
abbrev SpreadRows : (Text → Text → Row) → List Text → ℕ → ℕ → List Text → List Row → Type 0
SpreadRows row short last c long rows =
    (length rows ≡ length long)
    × ((j : ℕ)
        → j < length long
        → (s : Text) × (x : Text) × (get_elem? short (min (c + j) last) ≡ some s)
          × (get_elem? long j ≡ some x)
          × (get_elem? rows j ≡ some (row s x)))

abbrev next_index : ℕ → ℕ → ℕ
next_index last c = if ltb c last then c + 1 else c

min-next_index : (c j last : ℕ) → c ≤ last → min (next_index last c + j) last ≡ min (c + suc j) last
min-next_index c j last h = elim (Bool-cases (ltb c last)) [
  | inl e ↦ rw e (omega arith)
  | inr e ↦ rw e (omega (arith, ltb→le c last e))
]

next_index-le : (c last : ℕ) → c ≤ last → next_index last c ≤ last
next_index-le c last h = ground arith

SpreadRows-cons :
    (row : Text → Text → Row) (short : List Text) (last c : ℕ) (s x : Text) (long : List Text)
    (rows : List Row)
    → c ≤ last
    → get_elem? short c ≡ some s
    → SpreadRows row short last (next_index last c) long rows
    → (j : ℕ) → j < suc (length long)
    → (t : Text) × (y : Text) × (get_elem? short (min (c + j) last) ≡ some t)
      × (get_elem? (x ∷ long) j ≡ some y)
      × (get_elem? (row s x ∷ rows) j ≡ some (row t y))
SpreadRows-cons row short last c s x long rows h at f zero k =
    let here : min (c + 0) last ≡ c = omega arith in
    (s, x, ap (get_elem? short) here ∙ at, refl, refl)
SpreadRows-cons row short last c s x long rows h at f (suc j) k =
    let (t, y, p, q, r) = f.1 j (omega arith) in
    (t, y, ap (get_elem? short) (sym (min-next_index c j last h)) ∙ p, q, r)

spread_lem :
    (row : Text → Text → Row) (short : List Text) (last c : ℕ) (long : List Text)
    → suc last ≡ length short
    → c ≤ last
    → (rows : List Row) × (spread row short last c long ≡ some rows)
      × SpreadRows row short last c long rows
unfolding spread
spread_lem row short last c [] e h = ([], refl, (refl, λ j k. absurd (omega arith)))
spread_lem row short last c (x ∷ xs) e h =
    let (s, at) = get_elem?-length short c (omega arith) in
    let (rows, q, f) =
      spread_lem row short last (next_index last c) xs e (next_index-le c last h) in
    (
      row s x ∷ rows,
      rw (at, q, spread),
      (ap suc f.0, SpreadRows-cons row short last c s x xs rows h at f),
    )

-- For lists that are not empty the table is drawn without a fault. It has as many rows as the
-- longer list has entries, and row `j` shows entry `j` of each list, or the last one of a list
-- that is shorter, as ready.
pub mesh_rows_lem :
    (tm : Terminal) (classes ingresses : List Text)
    → 0 < length classes
    → 0 < length ingresses
    → (rows : List Row) × (mesh_rows tm classes ingresses ≡ some rows)
      × (length rows ≡ max (length classes) (length ingresses))
      × ((j : ℕ)
          → j < length rows
          → (c : Text) × (i : Text) × (get_elem? classes (min j (length classes - 1)) ≡ some c)
            × (get_elem? ingresses (min j (length ingresses - 1)) ≡ some i)
            × (get_elem? rows j ≡ some (c, i, tm.green (text "Ready"))))
unfolding mesh_rows
mesh_rows_lem tm classes ingresses hc hi =
    elim (Bool-cases (ltb (length classes) (length ingresses))) [
      | inl e ↦
          let less = ltb→lt (length classes) (length ingresses) e in
          let (rows, q, f) =
            spread_lem (λ c i. (c, i, tm.green (text "Ready"))) classes (length classes - 1) 0
              ingresses (omega arith) (omega arith) in
          (
            rows,
            rw e q,
            omega (arith, f.0, less),
            λ j k.
                let (s, x, p, r, t) = f.1 j (omega (arith, f.0)) in
                (
                  s,
                  x,
                  ap (get_elem? classes) (omega arith) ∙ p,
                  ap (get_elem? ingresses) (omega (arith, f.0)) ∙ r,
                  t,
                ),
          )
      | inr e ↦
          let less = ltb→le (length classes) (length ingresses) e in
          let (rows, q, f) =
            spread_lem (λ i c. (c, i, tm.green (text "Ready"))) ingresses (length ingresses - 1) 0
              classes (omega arith) (omega arith) in
          (
            rows,
            rw e q,
            omega (arith, f.0, less),
            λ j k.
                let (s, x, p, r, t) = f.1 j (omega (arith, f.0)) in
                (
                  x,
                  s,
                  ap (get_elem? classes) (omega (arith, f.0)) ∙ r,
                  ap (get_elem? ingresses) (omega arith) ∙ p,
                  t,
                ),
          )
    ]
