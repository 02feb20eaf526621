-- ===== src/Shared/Pagination.antt =====
-- wallet/src/lib/pagination.ts
use tanta.Base.{ℕ, ◌≡◌, refl, ◌⊎◌, inl, inr, Bool, true, ◌||◌}
use tanta.Js.Int.{pos, is_neg}
use tanta.Js.Number.{Number, int, non_int}
use tanta.Shared.Exception.{Result, ok, throw, lib, invalid_pagination}

-- Offset and limit of a constructed `Pagination` are integers of at least 0.
pub record Pagination : Type 0 where
  pub offset : ℕ
  pub limit : ℕ

-- The constructor.
unfoldable pub new_pagination : Number → Number → Result Pagination
new_pagination (int (pos offset)) (int (pos limit)) = ok (record { offset = offset; limit = limit })
new_pagination _ _ = throw (lib invalid_pagination)

-- The constructor's test, written as the source writes it.
abbrev pub is_rejected : Number → Bool
is_rejected (int z) = is_neg z
is_rejected non_int = true

-- The constructor accepts exactly the pairs of non-negative integers, and keeps them.
pub new_pagination_iff :
    (offset limit : Number)
    → (((is_rejected offset || is_rejected limit) ≡ true)
        × (new_pagination offset limit ≡ throw (lib invalid_pagination)))
      ⊎ ((o l : ℕ) × (offset ≡ int (pos o))
          × (limit ≡ int (pos l))
          × (new_pagination offset limit ≡ ok (record { offset = o; limit = l })))
unfolding new_pagination
new_pagination_iff (int (pos o)) (int (pos l)) = inr (o, l, refl, refl, refl)
new_pagination_iff _ _ = inl (refl, refl)
