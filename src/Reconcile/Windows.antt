-- ===== src/Reconcile/Windows.antt =====
-- The clusters of rows by time (tt_ledger/ingest/reconcile.py, `_cluster_by_time`).
use mathlib.Core.List.{flatten, Perm}
use mathlib.Core.List.Perm
use tt_ledger.Base.{
  ◌+◌, ◌≤◌, ◌<◌, ◌≡◌, refl, sym, ap, ◌∙◌, subst, true, false, not, List, [], ◌∷◌, ◌++◌, leb, select,
  sorted, insort, Bool, if◌then◌else◌, append_assoc, append-nil, inl, inr, Bool-cases, arith,
}
use tt_ledger.Base.Perms.{sorted-perm, select_parts-perm}
use tt_ledger.Rows.{ActivityRow}
use tt_ledger.Reconcile.Cluster.{
  group_tolerance, time_of, follows, split_from, clusters_of, singletons, is_dated, dated_rows,
  cluster_by_time,
}

flatten-split_from :
    (init : List ActivityRow) (last : ActivityRow) (rows : List ActivityRow)
    → flatten (split_from init last rows) ≡ init ++ last ∷ rows
unfolding split_from flatten
flatten-split_from init last [] = append-nil (init ++ last ∷ [])
flatten-split_from init last (row ∷ rows) = elim (Bool-cases (follows last row)) [
  | inl near ↦
      rw near (
        flatten-split_from (init ++ last ∷ []) row rows
        ∙ append_assoc init (last ∷ []) (row ∷ rows))
  | inr far ↦ rw far (
      ap (λ l. (init ++ last ∷ []) ++ l) (flatten-split_from [] row rows)
      ∙ append_assoc init (last ∷ []) (row ∷ rows))
]

flatten-clusters_of : (rows : List ActivityRow) → flatten (clusters_of rows) ≡ rows
unfolding clusters_of flatten
flatten-clusters_of [] = refl
flatten-clusters_of (row ∷ rows) = flatten-split_from [] row rows

flatten-singletons :
    (cs : List (List ActivityRow)) (rows : List ActivityRow)
    → flatten (cs ++ singletons rows) ≡ flatten cs ++ rows
unfolding singletons flatten
flatten-singletons [] [] = refl
flatten-singletons [] (row ∷ rows) = ap (λ l. row ∷ l) (flatten-singletons [] rows)
flatten-singletons (c ∷ cs) rows =
    ap (λ l. c ++ l) (flatten-singletons cs rows) ∙ sym (append_assoc c (flatten cs) rows)

-- Every row lands in exactly one cluster: the clusters together are a permutation of the rows.
pub flatten-cluster_by_time-perm :
    (rows : List ActivityRow) → Perm (flatten (cluster_by_time rows)) rows
unfolding cluster_by_time
flatten-cluster_by_time-perm rows =
    rw
      (
        flatten-singletons (clusters_of (dated_rows rows)) (select (λ r. not (is_dated r)) rows),
        flatten-clusters_of (dated_rows rows),
      )
      (Perm.trans
        (Perm.append (sorted-perm (λ a b. leb (time_of a) (time_of b)) (select is_dated rows))
          (Perm.refl (select (λ r. not (is_dated r)) rows)))
        (select_parts-perm is_dated rows))

-- each row of a cluster is executed no earlier than the one before it, and at most the tolerance later
abbrev pub IsLinked : List ActivityRow → Type 0
IsLinked [] = Unit
IsLinked (x ∷ []) = Unit
IsLinked (x ∷ y ∷ rest) =
    (time_of x ≤ time_of y) × (time_of y ≤ time_of x + group_tolerance) × IsLinked (y ∷ rest)

-- the last row of one cluster and the first of the next are further apart than the tolerance
abbrev pub AreApart : ActivityRow → List (List ActivityRow) → Type 0
AreApart last ((y ∷ _) ∷ _) = time_of last + group_tolerance < time_of y
AreApart last _ = Unit

abbrev pub last_of : ActivityRow → List ActivityRow → ActivityRow
last_of d [] = d
last_of d (x ∷ xs) = last_of x xs

abbrev pub AreWindows : List (List ActivityRow) → Type 0
AreWindows [] = Unit
AreWindows ([] ∷ rest) = ⊥
AreWindows ((x ∷ xs) ∷ rest) = IsLinked (x ∷ xs) × AreApart (last_of x xs) rest × AreWindows rest

IsLinked-snoc :
    (init : List ActivityRow) (last row : ActivityRow)
    → IsLinked (init ++ last ∷ [])
    → time_of last ≤ time_of row
    → time_of row ≤ time_of last + group_tolerance
    → IsLinked ((init ++ last ∷ []) ++ row ∷ [])
IsLinked-snoc [] last row h after near = (after, near, tt)
IsLinked-snoc (x ∷ []) last row h after near = (h.0, h.1, (after, near, tt))
IsLinked-snoc (x ∷ y ∷ init) last row h after near =
    (h.0, h.1, IsLinked-snoc (y ∷ init) last row h.2 after near)

last_of-snoc :
    (init : List ActivityRow) (d last : ActivityRow) → last_of d (init ++ last ∷ []) ≡ last
last_of-snoc [] d last = refl
last_of-snoc (x ∷ init) d last = last_of-snoc init x last

-- the first cluster begins with the first row that the loop was handed
AreApart-started :
    (x y : ActivityRow) (init : List ActivityRow) (last : ActivityRow) (rows : List ActivityRow)
    → time_of x + group_tolerance < time_of y
    → AreApart x (split_from (y ∷ init) last rows)
unfolding split_from
AreApart-started x y init last [] far = far
AreApart-started x y init last (row ∷ rows) far = elim (Bool-cases (follows last row)) [
  | inl near ↦ rw near (AreApart-started x y (init ++ last ∷ []) row rows far)
  | inr gap ↦ rw gap far
]

AreApart-split_from :
    (x last : ActivityRow) (rows : List ActivityRow)
    → time_of x + group_tolerance < time_of last
    → AreApart x (split_from [] last rows)
unfolding split_from
AreApart-split_from x last [] far = far
AreApart-split_from x last (row ∷ rows) far = elim (Bool-cases (follows last row)) [
  | inl near ↦ rw near (AreApart-started x last [] row rows far)
  | inr gap ↦ rw gap far
]

AreWindows-cons :
    (init : List ActivityRow) (last : ActivityRow) (rest : List (List ActivityRow))
    → IsLinked (init ++ last ∷ [])
    → AreApart last rest
    → AreWindows rest
    → AreWindows ((init ++ last ∷ []) ∷ rest)
AreWindows-cons [] last rest l a w = (l, a, w)
AreWindows-cons (x ∷ init) last rest l a w =
    (l, subst (λ d. AreApart d rest) (sym (last_of-snoc init x last)) a, w)

follows-near : (x y : ActivityRow) → follows x y ≡ true → time_of y ≤ time_of x + group_tolerance
unfolding follows
follows-near x y h = ground arith

follows-far : (x y : ActivityRow) → follows x y ≡ false → time_of x + group_tolerance < time_of y
unfolding follows
follows-far x y h = ground arith

-- no row is executed before the one in front of it
abbrev IsOrdered : List ActivityRow → Type 0
IsOrdered [] = Unit
IsOrdered (x ∷ []) = Unit
IsOrdered (x ∷ y ∷ rest) = (time_of x ≤ time_of y) × IsOrdered (y ∷ rest)

abbrev before : ActivityRow → ActivityRow → Bool
before a b = leb (time_of a) (time_of b)

IsOrdered-insort :
    (x : ActivityRow) (rows : List ActivityRow) → IsOrdered rows → IsOrdered (insort before x rows)
IsOrdered-insort x [] h = tt
IsOrdered-insort x (y ∷ []) h = elim (Bool-cases (leb (time_of x) (time_of y))) [
  | inl first ↦ rw first (ground arith, tt)
  | inr later ↦ rw later (ground arith, tt)
]
IsOrdered-insort x (y ∷ z ∷ rest) h = elim (Bool-cases (leb (time_of x) (time_of y))) [
  | inl first ↦ rw first (ground arith, h)
  | inr later ↦ elim (Bool-cases (leb (time_of x) (time_of z))) [
    | inl next ↦ rw (later, next) (ground arith, (ground arith, h.1))
    | inr past ↦
        let more = IsOrdered-insort x (z ∷ rest) h.1 in
        rw (later, past)
          (
            h.0,
            subst (λ b. IsOrdered (if b then x ∷ z ∷ rest else z ∷ insort before x rest)) past more,
          )
  ]
]

sorted-IsOrdered : (rows : List ActivityRow) → IsOrdered (sorted before rows)
sorted-IsOrdered [] = tt
sorted-IsOrdered (x ∷ rows) = IsOrdered-insort x (sorted before rows) (sorted-IsOrdered rows)

split_from-AreWindows :
    (init : List ActivityRow) (last : ActivityRow) (rows : List ActivityRow)
    → IsOrdered (last ∷ rows)
    → IsLinked (init ++ last ∷ [])
    → AreWindows (split_from init last rows)
unfolding split_from
split_from-AreWindows init last [] o h = AreWindows-cons init last [] h tt tt
split_from-AreWindows init last (row ∷ rows) o h = elim (Bool-cases (follows last row)) [
  | inl near ↦ rw near (
      split_from-AreWindows (init ++ last ∷ []) row rows o.1
        (IsLinked-snoc init last row h o.0 (follows-near last row near)))
  | inr gap ↦ rw gap (
      AreWindows-cons init last (split_from [] row rows) h
        (AreApart-split_from last row rows (follows-far last row gap))
        (split_from-AreWindows [] row rows o.1 tt))
]

-- The clusters of dated rows are windows: no cluster is empty, within one each row is executed no
-- earlier than the row before it and at most the tolerance later, and the first row of the next
-- cluster is executed more than the tolerance after the last row of the one before.
pub clusters_of-AreWindows : (rows : List ActivityRow) → AreWindows (clusters_of (dated_rows rows))
unfolding clusters_of dated_rows
clusters_of-AreWindows rows = go (dated_rows rows) (sorted-IsOrdered (select is_dated rows))
  where
    go : (l : List ActivityRow) → IsOrdered l → AreWindows (clusters_of l)
    go [] o = tt
    go (row ∷ l) o = split_from-AreWindows [] row l o tt
