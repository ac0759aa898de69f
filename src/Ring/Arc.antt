-- ===== src/Ring/Arc.antt =====
-- `between` as a cyclic order on identifiers.
use peerpaste.Base.{
  Bytes, bytes_lt_self, bytes_lt-asymm, bytes_lt_trans, bytes_lt-total, ◌≡◌, sym, subst, ◌≢◌, true,
  false, not, arith,
}
use peerpaste.Ring.{between}

-- The two ends are never inside the arc.
pub between-ne :
    (id_1 id_2 id_3 : Bytes) → between id_1 id_2 id_3 ≡ true → (id_1 ≢ id_2) × (id_2 ≢ id_3)
unfolding between
between-ne a b c h = (
  λ e. ends_left (subst (λ x. between a x c ≡ true) (sym e) h),
  λ e. ends_right (subst (λ x. between a x c ≡ true) e h),
)
  where
    ends_left : between a a c ≡ true → ⊥
    ends_left k = ground (arith, bytes_lt_self a, bytes_lt-asymm a c)

    ends_right : between a c c ≡ true → ⊥
    ends_right k = ground (arith, bytes_lt_self c, bytes_lt-asymm a c)

pub between_self : (id_1 id_2 : Bytes) → between id_1 id_1 id_2 ≡ false
unfolding between
between_self a c = ground (arith, bytes_lt_self a)

-- An identifier other than the two ends of a proper arc lies on exactly one of the two arcs that
-- the ends cut.
pub between-split :
    (id_1 id_2 id_3 : Bytes)
    → id_1 ≢ id_2
    → id_2 ≢ id_3
    → id_1 ≢ id_3
    → between id_1 id_2 id_3 ≡ not (between id_3 id_2 id_1)
unfolding between
between-split a b c h k l = ground (
  arith,
  bytes_lt-asymm a b,
  bytes_lt-asymm b c,
  bytes_lt-asymm a c,
  bytes_lt-total a b,
  bytes_lt-total b c,
  bytes_lt-total a c,
  bytes_lt_trans a b c,
  bytes_lt_trans c b a,
)

-- A turn of the ring: the arc relation does not depend on which of three identifiers is named first.
pub between-turn :
    (id_1 id_2 id_3 : Bytes)
    → between id_1 id_2 id_3 ≡ true
    → id_1 ≢ id_3
    → between id_2 id_3 id_1 ≡ true
unfolding between
between-turn a b c h l = ground (
  arith,
  bytes_lt-asymm a b,
  bytes_lt-asymm b c,
  bytes_lt-asymm a c,
  bytes_lt-total a c,
  bytes_lt_trans a b c,
  bytes_lt_trans b c a,
  bytes_lt_trans c a b,
)

-- On a full turn (both ends equal) the arc is everything else.
pub between-full : (id_1 id_2 : Bytes) → id_1 ≢ id_2 → between id_1 id_2 id_1 ≡ true
unfolding between
between-full a b h = ground (arith, bytes_lt_self a, bytes_lt-total a b)

-- Arcs nest: of an arc and a point inside it, the part up to that point lies inside the arc.
pub between_trans :
    (id_1 id_2 id_3 id_4 : Bytes)
    → between id_1 id_3 id_4 ≡ true
    → between id_1 id_2 id_3 ≡ true
    → between id_1 id_2 id_4 ≡ true
unfolding between
between_trans a b c d h k = ground (
  arith,
  bytes_lt-asymm a c,
  bytes_lt-asymm c d,
  bytes_lt-asymm a d,
  bytes_lt_trans b c d,
  bytes_lt_trans a b c,
  bytes_lt_trans a c d,
)

-- The same from the other end: the part of an arc behind a point inside it lies inside the arc.
pub between-trans_right :
    (id_1 id_2 id_3 id_4 : Bytes)
    → between id_1 id_2 id_4 ≡ true
    → between id_2 id_3 id_4 ≡ true
    → between id_1 id_3 id_4 ≡ true
unfolding between
between-trans_right a b c d h k = ground (
  arith,
  bytes_lt-asymm a b,
  bytes_lt-asymm b d,
  bytes_lt-asymm a d,
  bytes_lt_trans a b c,
  bytes_lt_trans b c d,
  bytes_lt_trans a b d,
)
