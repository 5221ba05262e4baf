-- ===== src/Mux/Simple.antt =====
-- A system of lists, in which the laws of Mux/Channel hold: the table of channels is a list of pairs,
-- the id heap is a list of the ids in use, and the world is the packets written so far.
use elastos_net_carrier_nati.Base.{
  ℕ, suc, ◌<◌, ◌≡◌, refl, List, [], ◌∷◌, Bool, true, false, Option, none, some, arith, ltb, ◌==◌,
  if◌then◌else◌, inl, inr, Bool-cases,
}
use elastos_net_carrier_nati.Mux.Channel.{
  Channel, ok, System, IsLawful, max_channel_id, AllIn, has_id, HasDistinctIds,
}

abbrev pub Pairs : Type 0
Pairs = List (ℕ × Channel)

unfoldable pub get : Pairs → ℕ → Option Channel
get [] k = none
get ((j, c) ∷ t) k = if j == k then some c else get t k

unfoldable pub remove : Pairs → ℕ → Pairs
remove [] j = []
remove ((i, c) ∷ t) j = let rest = remove t j in if i == j then rest else (i, c) ∷ rest

unfoldable pub member : ℕ → List ℕ → Bool
member k [] = false
member k (i ∷ is) = if i == k then true else member k is

-- The first channel under each key.
unfoldable pub walk : List ℕ → Pairs → List Channel
unfolding member
walk seen [] = []
walk seen ((k, c) ∷ t) =
    let old = walk seen t in let new = c ∷ walk (k ∷ seen) t in if member k seen then old else new

get-remove : (t : Pairs) (j k : ℕ) → get (remove t j) k ≡ (if j == k then none else get t k)
unfolding get remove
get-remove [] j k = ground arith
get-remove ((i, c) ∷ t) j k = ground (arith, get-remove t j k)

get-put :
    (t : Pairs) (j k : ℕ) (c : Channel)
    → get ((j, c) ∷ remove t j) k ≡ (if j == k then some c else get t k)
unfolding get
get-put t j k c = ground (arith, get-remove t j k)

walk_unseen :
    (seen : List ℕ) (t : Pairs) (k : ℕ)
    → ((j : ℕ) (c : Channel) → member j seen ≡ false → get t j ≡ some c → c.id ≡ j)
    → member k seen ≡ true
    → has_id k (walk seen t) ≡ false
unfolding walk get member
walk_unseen seen [] k named m = refl
walk_unseen seen ((i, c) ∷ t) k named m = elim (Bool-cases (member i seen)) [
  | inl old ↦ ground (arith, walk_unseen seen t k (λ j d u e. named j d u (ground arith)) m)
  | inr new ↦ ground (
    arith,
    walk_unseen (i ∷ seen) t k (λ j d u e. named j d (ground arith) (ground arith)) (ground arith),
    named i c new (ground arith),
  )
]

walk_found :
    (whole : ℕ → Option Channel) (seen : List ℕ) (t : Pairs)
    → ((j : ℕ) → member j seen ≡ false → whole j ≡ get t j)
    → ((j : ℕ) (c : Channel) → member j seen ≡ false → get t j ≡ some c → c.id ≡ j)
    → AllIn whole (walk seen t) × HasDistinctIds (walk seen t)
unfolding walk get member
walk_found whole seen [] agree named = (tt, tt)
walk_found whole seen ((i, c) ∷ t) agree named = elim (Bool-cases (member i seen)) [
  | inl old ↦
      let ih =
        walk_found whole seen t (λ j u. ground (arith, agree j u))
          (λ j d u e. named j d u (ground arith)) in
      ground (arith, ih)
  | inr new ↦
      let later : (j : ℕ) (d : Channel)
          → member j (i ∷ seen) ≡ false
          → get t j ≡ some d
          → d.id ≡ j =
        λ j d u e. named j d (ground arith) (ground arith) in
      let ih = walk_found whole (i ∷ seen) t (λ j u. ground (arith, agree j)) later in
      let id = named i c new (ground arith) in
      let apart = walk_unseen (i ∷ seen) t i later (ground arith) in
      let here = agree i new in ground (arith, ih, id, apart, here)
]

walk_complete :
    (seen : List ℕ) (t : Pairs) (k : ℕ) (c : Channel)
    → member k seen ≡ false
    → get t k ≡ some c
    → c.id ≡ k
    → has_id k (walk seen t) ≡ true
unfolding walk get member
walk_complete seen [] k c m e i = cc
walk_complete seen ((j, d) ∷ t) k c m e i = elim (Bool-cases (member j seen)) [
  | inl old ↦ ground (arith, walk_complete seen t k c m)
  | inr new ↦ ground (arith, walk_complete (j ∷ seen) t k c)
]

-- The id heap.
unfoldable pub largest : List ℕ → ℕ
largest [] = 0
largest (i ∷ is) = let rest = largest is in if ltb rest i then i else rest

unfoldable pub alloc : List ℕ → Option (ℕ × List ℕ)
unfolding largest
alloc is =
    if ltb (largest is) max_channel_id then some (suc (largest is), suc (largest is) ∷ is) else none

unfoldable pub free : List ℕ → ℕ → List ℕ
free [] n = []
free (i ∷ is) n = let rest = free is n in if i == n then rest else i ∷ rest

member-largest : (k : ℕ) (is : List ℕ) → largest is < k → member k is ≡ false
unfolding member largest
member-largest k [] h = refl
member-largest k (i ∷ is) h = ground (arith, member-largest k is)

member-free :
    (is : List ℕ) (n k : ℕ) → member k (free is n) ≡ (if n == k then false else member k is)
unfolding member free
member-free [] n k = ground arith
member-free (i ∷ is) n k = ground (arith, member-free is n k)

abbrev pub simple : System
simple = record {
  World = List (List ℕ);
  Table = Pairs;
  table_create = [];
  table_get = get;
  table_put = λ t j c. (j, c) ∷ remove t j;
  table_remove = remove;
  table_entries = walk [];
  Ids = List ℕ;
  ids_init = [];
  ids_used = λ is k. member k is;
  ids_alloc = alloc;
  ids_free = free;
  rc_zalloc = λ w. (true, w);
  gettimeofday = λ w. (record { sec = 1600000000; usec = 0 }, w);
  next_start = λ w. (ok 0, w);
  next_stop = λ w. w;
  next_write = λ bs w. (ok 1, bs ∷ w);
  prev_on_data = λ bs w. bs ∷ w;
  prev_on_state_changed = λ n w. w;
  create_timer = λ w. (ok 0, w);
  destroy_timer = λ w. w;
  worker_start = λ w. (ok 0, w);
  worker_stop = λ w. w;
}

pub simple-IsLawful : IsLawful simple
unfolding get remove walk member alloc free
simple-IsLawful = record {
  entries_found = λ t named. walk_found (get t) [] t (λ j u. refl) (λ j c u e. named j c e);
  entries_complete = λ t k c e i. walk_complete [] t k c refl e i;
  get-create = λ k. refl;
  get-put = get-put;
  get-remove = get-remove;
  used-init = λ k. refl;
  alloc_fresh = λ i n i' e. ground (arith, member-largest n i);
  used-alloc = λ i n i' k e. ground arith;
  used-free = member-free;
}
