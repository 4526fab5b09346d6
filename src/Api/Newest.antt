-- ===== src/Api/Newest.antt =====
-- What the pages of trades hold (src/api.rs).
use mathlib.Core.List.{Perm}
use mathlib.Core.List.Perm
use solana_realtime_indexer.Prelude.{
  ℕ, zero, suc, ◌≤◌, String, List, [], ◌∷◌, ◌++◌, map, Option, some, ℤ, pos_part, ◌≡◌, ◌⊎◌, inl,
  inr, refl, ap, subst, sym, arith, ◌≤ℤ◌, leb_ℤ, All, All-map, take, length, Bool-cases, pos,
  negsuc, none, ◌<◌, ◌≢◌, ◌=?◌, =?_iff, string_eq,
}
use solana_realtime_indexer.Db.Schema.{RepairedTrade, Db}
use solana_realtime_indexer.Db.Result.{served}
use solana_realtime_indexer.Api.{
  rows, clamp, place_newest, newest_first, of_mint, json, trade_from, recent, by_token,
}

-- How many rows a request is for: 50 without a limit, else the limit, or 1 for less, or 500 for more.
abbrev pub IsSize : Option ℤ → ℕ → Type 0
IsSize none n = n ≡ 50
IsSize (some (pos l)) n =
    (1 ≤ n) × (n ≤ 500) × ((n ≡ l) ⊎ ((l ≡ 0) × (n ≡ 1)) ⊎ ((500 < l) × (n ≡ 500)))
IsSize (some (negsuc l)) n = n ≡ 1

rows-IsSize : (limit : Option ℤ) → IsSize limit (pos_part (rows limit))
unfolding rows clamp
rows-IsSize none = ground arith
rows-IsSize (some (pos l)) = ground arith
rows-IsSize (some (negsuc l)) = ground arith

-- No row is of a later slot than one before it.
abbrev pub IsDescending : List RepairedTrade → Type 0
IsDescending [] = Unit
IsDescending (t ∷ ts) = All (λ x. x.slot ≤ℤ t.slot) ts × IsDescending ts

place_newest-perm :
    (t : RepairedTrade) (ts : List RepairedTrade) → Perm (place_newest t ts) (t ∷ ts)
unfolding place_newest
place_newest-perm t [] = Perm.refl (t ∷ [])
place_newest-perm t (x ∷ xs) = elim (Bool-cases (leb_ℤ x.slot t.slot)) [
  | inl newer ↦ rw newer (Perm.refl (t ∷ x ∷ xs))
  | inr older ↦ rw older (Perm.trans (Perm.cons x (place_newest-perm t xs)) (Perm.swap t x xs))
]

newest_first-perm : (ts : List RepairedTrade) → Perm (newest_first ts) ts
unfolding newest_first
newest_first-perm [] = Perm.refl []
newest_first-perm (t ∷ ts) =
    Perm.trans (place_newest-perm t (newest_first ts)) (Perm.cons t (newest_first-perm ts))

All-place_newest :
    (P : RepairedTrade → Type 0) (t : RepairedTrade) (ts : List RepairedTrade)
    → P t
    → All P ts
    → All P (place_newest t ts)
unfolding place_newest
All-place_newest P t [] p h = (p, tt)
All-place_newest P t (x ∷ xs) p h = elim (Bool-cases (leb_ℤ x.slot t.slot)) [
  | inl newer ↦ rw newer (p, h)
  | inr older ↦ rw older (h.0, All-place_newest P t xs p h.1)
]

place_newest-IsDescending :
    (t : RepairedTrade) (ts : List RepairedTrade)
    → IsDescending ts
    → IsDescending (place_newest t ts)
unfolding place_newest
place_newest-IsDescending t [] d = (tt, tt)
place_newest-IsDescending t (x ∷ xs) d = elim (Bool-cases (leb_ℤ x.slot t.slot)) [
  | inl newer ↦
      let le : x.slot ≤ℤ t.slot = ground arith in
      rw newer ((le, All-map _ _ xs (λ y h. omega arith) d.0), d)
  | inr older ↦ rw older (
    All-place_newest (λ y. y.slot ≤ℤ x.slot) t xs (ground arith) d.0,
    place_newest-IsDescending t xs d.1,
  )
]

newest_first-IsDescending : (ts : List RepairedTrade) → IsDescending (newest_first ts)
unfolding newest_first
newest_first-IsDescending [] = tt
newest_first-IsDescending (t ∷ ts) =
    place_newest-IsDescending t (newest_first ts) (newest_first-IsDescending ts)

-- The rows left out come after those shown, and there are none if the page is not full.
take-split :
    {A : Type 0} (n : ℕ) (xs : List A)
    → (rest : List A) × (take n xs ++ rest ≡ xs)
      × ((length (take n xs) ≡ n) ⊎ ((length (take n xs) < n) × (rest ≡ [])))
take-split zero xs = (xs, refl, inl refl)
take-split (suc n) [] = ([], refl, inr (omega arith, refl))
take-split (suc n) (x ∷ xs) =
    let (rest, e, full) = take-split n xs in
    (
      rest,
      ap (λ l. x ∷ l) e,
      elim full [ inl f ↦ inl (ap suc f) | inr g ↦ inr (omega (arith, g.0), g.1) ],
    )

-- The page shows the newest of the trades, as many as the limit allows.
pub record IsNewest (limit : Option ℤ) (page ts : List RepairedTrade) : Type 0 where
  pub rest : List RepairedTrade
  pub all : Perm (page ++ rest) ts
  pub ordered : IsDescending (page ++ rest)
  pub size : ℕ
  pub asked : IsSize limit size
  pub full : (length page ≡ size) ⊎ ((length page < size) × (rest ≡ []))

take-IsNewest :
    (limit : Option ℤ) (ts : List RepairedTrade)
    → IsNewest limit (take (pos_part (rows limit)) (newest_first ts)) ts
take-IsNewest limit ts =
    let (rest, e, full) = take-split (pos_part (rows limit)) (newest_first ts) in
    record {
      rest = rest;
      all = subst (λ l. Perm l ts) (sym e) (newest_first-perm ts);
      ordered = subst IsDescending (sym e) (newest_first-IsDescending ts);
      size = pos_part (rows limit);
      asked = rows-IsSize limit;
      full = full;
    }

-- `ts` are the trades of this mint among `all`, each as often as there.
abbrev pub IsOfMint : String → List RepairedTrade → List RepairedTrade → Type 0
IsOfMint mint ts all =
    All (λ t. t.trade.token_mint ≡ mint) ts
    × ((others : List RepairedTrade) × All (λ t. t.trade.token_mint ≢ mint) others
        × Perm (ts ++ others) all)

perm-middle :
    (t : RepairedTrade) (xs ys : List RepairedTrade) → Perm (xs ++ t ∷ ys) (t ∷ (xs ++ ys))
perm-middle t [] ys = Perm.refl (t ∷ ys)
perm-middle t (x ∷ xs) ys =
    Perm.trans (Perm.cons x (perm-middle t xs ys)) (Perm.swap t x (xs ++ ys))

of_mint-IsOfMint : (mint : String) (ts : List RepairedTrade) → IsOfMint mint (of_mint mint ts) ts
unfolding of_mint
of_mint-IsOfMint mint [] = (tt, ([], tt, Perm.refl []))
of_mint-IsOfMint mint (t ∷ ts) =
    let (same, (others, different, all)) = of_mint-IsOfMint mint ts in
    elim (Bool-cases (t.trade.token_mint =? mint)) [
      | inl of_it ↦
          rw of_it
            (((=?_iff t.trade.token_mint mint).0 of_it, same), (others, different, Perm.cons t all))
      | inr of_other ↦ rw of_other (
        same,
        (
          t ∷ others,
          ((λ e. ground (arith, =?_iff t.trade.token_mint mint)), different),
          Perm.trans (perm-middle t (of_mint mint ts) others) (Perm.cons t all),
        ),
      )
    ]

module _ {V : Type 0} (show : ℕ → String) where
  -- Both pages of trades show the newest ones, of all trades or of those of one mint: latest slot
  -- first, none of a later slot left out, and as many as the limit asks for (50 without a limit,
  -- and from 1 to 500 with one), or all there are; given that the query is answered.
  pub recent-IsNewest :
      (mint : String) (limit : Option ℤ) (db : Db V)
      → ((page : List RepairedTrade) × IsNewest limit page db.trades
          × (recent show served limit db ≡ some (json (map (trade_from show) page))))
        × ((page : List RepairedTrade) × (ts : List RepairedTrade) × IsOfMint mint ts db.trades
            × IsNewest limit page ts
            × (by_token show served mint limit db ≡ some (json (map (trade_from show) page))))
  unfolding recent by_token
  recent-IsNewest mint limit db = (
    (_, take-IsNewest limit db.trades, refl),
    (
      _,
      of_mint mint db.trades,
      of_mint-IsOfMint mint db.trades,
      take-IsNewest limit (of_mint mint db.trades),
      refl,
    ),
  )
