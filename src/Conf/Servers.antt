-- ===== src/Conf/Servers.antt =====
-- `copy_tracker_servers` keeps the trackers in strictly ascending order, each address once.
use mathlib.Core.Path.{subst}
use mathlib.Core.Logic.Or
use mathlib.Core.List.{
  Mem, Perm, mem-cons, reverse, reverse-cons, reverse_perm, mem-cons_self, mem-cons_of_mem,
}
use mathlib.Core.List.Perm
use demostroage.Prelude.{
  ℕ, ◌≡◌, refl, sym, Bool, true, false, Bool-cases, inl, inr, none, some, List, [], ◌∷◌, ◌++◌,
  arith, All, All-append, length, is_neg, is_pos, Option, ℕ,
}
use demostroage.Libc.Sort.{get?, insert_by, bsearch}
use demostroage.Libc.Sort.Sorted.{IsSorted, All-insert_by, insert_by-perm}
use demostroage.Libc.Sort.Searching.{IsEqual, Locates, bsearch-Locates}
use demostroage.Ini.Lookup.{get?-Mem}
use demostroage.Ini.Values.{All-of-get?}
use demostroage.Ini.Named.{All-reverse}
use demostroage.Runtime.{TrackerServer}
use demostroage.Conf.{compare_server, insert_into_sorted_servers, merge_server}
use demostroage.Conf.Order.{
  by_server, server_total, server_gt_le, compare_server-IsEqual, server_flip, server_unflip,
  neg_not_pos,
}

abbrev above : TrackerServer → TrackerServer → Bool
above x y = is_pos (compare_server x y)

-- each server is below all behind it
abbrev pub Ascending : List TrackerServer → Type 0
Ascending [] = Unit
Ascending (x ∷ xs) = All (λ y. is_neg (compare_server x y) ≡ true) xs × Ascending xs

abbrev Descending : List TrackerServer → Type 0
Descending [] = Unit
Descending (x ∷ xs) = All (λ y. above x y ≡ true) xs × Descending xs

All-map :
    {P Q : TrackerServer → Type 0} (f : (x : TrackerServer) → P x → Q x) (xs : List TrackerServer)
    → All P xs
    → All Q xs
All-map f [] h = tt
All-map f (x ∷ xs) h = (f x h.0, All-map f xs h.1)

pub Ascending-IsSorted : (xs : List TrackerServer) → Ascending xs → IsSorted by_server xs
Ascending-IsSorted [] h = tt
Ascending-IsSorted (x ∷ xs) h =
    (All-map (λ y p. neg_not_pos (compare_server x y) p) xs h.0, Ascending-IsSorted xs h.1)

Ascending-snoc :
    (xs : List TrackerServer) (y : TrackerServer)
    → Ascending xs
    → All (λ z. is_neg (compare_server z y) ≡ true) xs
    → Ascending (xs ++ y ∷ [])
Ascending-snoc [] y h a = (tt, tt)
Ascending-snoc (x ∷ xs) y h a = (
  All-append (λ z. is_neg (compare_server x z) ≡ true) xs (y ∷ []) h.0 (a.0, tt),
  Ascending-snoc xs y h.1 a.1,
)

Descending-snoc :
    (xs : List TrackerServer) (y : TrackerServer)
    → Descending xs
    → All (λ z. above z y ≡ true) xs
    → Descending (xs ++ y ∷ [])
Descending-snoc [] y h a = (tt, tt)
Descending-snoc (x ∷ xs) y h a =
    (All-append (λ z. above x z ≡ true) xs (y ∷ []) h.0 (a.0, tt), Descending-snoc xs y h.1 a.1)

Ascending-reverse : (xs : List TrackerServer) → Descending xs → Ascending (reverse xs)
Ascending-reverse [] h = tt
Ascending-reverse (x ∷ xs) h = subst Ascending (sym (reverse-cons x xs)) (
    Ascending-snoc (reverse xs) x (Ascending-reverse xs h.1) (
      All-reverse (λ z. is_neg (compare_server z x) ≡ true) xs
        (All-map (λ y p. server_unflip x y p) xs h.0)))

Descending-reverse : (xs : List TrackerServer) → Ascending xs → Descending (reverse xs)
Descending-reverse [] h = tt
Descending-reverse (x ∷ xs) h = subst Descending (sym (reverse-cons x xs)) (
    Descending-snoc (reverse xs) x (Descending-reverse xs h.1)
      (All-reverse (λ z. above z x ≡ true) xs (All-map (λ y p. server_flip x y p) xs h.0)))

above_trans : (x y z : TrackerServer) → above x y ≡ true → above y z ≡ true → above x z ≡ true
above_trans x y z h k = server_gt_le x z y h (server_total y z k)

-- neither above nor equal is below
below_of :
    (x y : TrackerServer) → above x y ≡ false → ¬ IsEqual (compare_server x y) → above y x ≡ true
below_of x y h ne = elim (Bool-cases (is_neg (compare_server x y))) [
  | inl lt ↦ server_flip x y lt
  | inr ge ↦ absurd (ne (ge, h))
]

insert_by-Descending :
    (x : TrackerServer) (ys : List TrackerServer)
    → Descending ys
    → All (λ y. ¬ IsEqual (compare_server x y)) ys
    → Descending (insert_by above x ys)
unfolding insert_by
insert_by-Descending x [] h ne = (tt, tt)
insert_by-Descending x (y ∷ ys) h ne = elim (Bool-cases (above x y)) [
  | inl gt ↦ rw gt ((gt, All-map (λ z p. above_trans x y z gt p) ys h.0), h)
  | inr le ↦ rw le (
    All-insert_by (λ z. above y z ≡ true) above x ys (below_of x y le ne.0) h.0,
    insert_by-Descending x ys h.1 ne.1,
  )
]

insert_into_sorted_servers-Ascending :
    (x : TrackerServer) (servers : List TrackerServer)
    → Ascending servers
    → All (λ y. ¬ IsEqual (compare_server x y)) servers
    → Ascending (insert_into_sorted_servers x servers)
unfolding insert_into_sorted_servers
insert_into_sorted_servers-Ascending x servers h ne = Ascending-reverse _ (
    insert_by-Descending x (reverse servers) (Descending-reverse servers h)
      (All-reverse (λ y. ¬ IsEqual (compare_server x y)) servers ne))

pub insert_into_sorted_servers-perm :
    (x : TrackerServer) (servers : List TrackerServer)
    → Perm (insert_into_sorted_servers x servers) (x ∷ servers)
unfolding insert_into_sorted_servers
insert_into_sorted_servers-perm x servers =
    Perm.trans (reverse_perm _)
      (Perm.trans (insert_by-perm above x (reverse servers)) (Perm.cons x (reverse_perm servers)))

mem_of_cons :
    (x z : TrackerServer) (xs ys : List TrackerServer)
    → (Mem z ys → Mem z xs)
    → Mem z (x ∷ ys)
    → Mem z (x ∷ xs)
mem_of_cons x z xs ys f h =
    mem-cons.1 (Or.elim (hlevel) (mem-cons.0 h) (λ e. Or.inl e) (λ m. Or.inr (f m)))

-- a server of the same address and port
abbrev pub Holds : List TrackerServer → TrackerServer → Type 0
Holds servers x = (y : TrackerServer) × Mem y servers × (x.ip_addr ≡ y.ip_addr) × (x.port ≡ y.port)

Holds-perm : (xs ys : List TrackerServer) (x : TrackerServer) → Perm xs ys → Holds xs x → Holds ys x
Holds-perm xs ys x p (y, m, i, q) = (y, (Perm.mem_iff p).0 m, i, q)

-- `servers` stands for the trackers `xs`: in strictly ascending order, none but those, all of them
pub record IsMerged (xs servers : List TrackerServer) : Type 0 where
  pub ascending : Ascending servers
  pub only : (y : TrackerServer) → Mem y servers → Mem y xs
  pub all : All (Holds servers) xs

-- one step from `servers`, which stand for `done`
module _ (seen servers : List TrackerServer) (x : TrackerServer) (m : IsMerged seen servers) where
  IsMerged-found :
      (i : ℕ) (y : TrackerServer)
      → get? servers i ≡ some y
      → IsEqual (compare_server x y)
      → IsMerged (x ∷ seen) servers
  IsMerged-found i y e q =
      let (ip, port) = compare_server-IsEqual x y q.0 q.1 in
      record {
        ascending = m.ascending;
        only = λ z h. mem-cons_of_mem x (m.only z h);
        all = ((y, get?-Mem servers i e, ip, port), m.all);
      }

  IsMerged-new :
      All (λ y. ¬ IsEqual (compare_server x y)) servers
      → IsMerged (x ∷ seen) (insert_into_sorted_servers x servers)
  IsMerged-new ne =
      let p = insert_into_sorted_servers-perm x servers in
      record {
        ascending = insert_into_sorted_servers-Ascending x servers m.ascending ne;
        only = λ z h. mem_of_cons x z seen servers (m.only z) ((Perm.mem_iff p).0 h);
        all = (
          (x, (Perm.mem_iff p).1 mem-cons_self, refl, refl),
          All-map (λ z (y, h, i, q). (y, (Perm.mem_iff p).1 (mem-cons_of_mem x h), i, q)) seen
              m.all,
        );
      }

  pub merge_server-IsMerged : IsMerged (x ∷ seen) (merge_server servers x)
  unfolding merge_server
  merge_server-IsMerged =
      located (bsearch (compare_server x) servers)
        (bsearch-Locates by_server servers (Ascending-IsSorted servers m.ascending) x)
    where
      located :
          (r : Option ℕ)
          → Locates by_server servers x 0 (length servers) r
          → IsMerged
              (x ∷ seen)
              (elim r [ none ↦ insert_into_sorted_servers x servers | some i ↦ servers ])
      located none l = IsMerged-new (
          All-of-get? (λ y. ¬ IsEqual (compare_server x y)) servers
            (λ i y lt e. l i y (omega arith) lt e))
      located (some i) (lo, hi, y, e, q) = IsMerged-found i y e q
