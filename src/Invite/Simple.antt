-- ===== src/Invite/Simple.antt =====
-- A network in which every call succeeds, and tables that are functions: the world is the list of the
-- messages sent.
use elastos_net_carrier_nati.Base.{
  ℕ, refl, List, [], ◌∷◌, ◌++◌, true, Option, none, some, eq_bytes, eq_bytes_refl, if◌then◌else◌,
}
use elastos_net_carrier_nati.Mux.Channel.{ok}
use elastos_net_carrier_nati.Invite.Data.{Message, Env, IsLawfulTable}
use elastos_net_carrier_nati.Invite.Sending.{IsLog}

abbrev pub simple : Env
simple = record {
  World = List (ℕ × Message);
  Table = λ A. List ℕ → Option A;
  table_get = λ t k. t k;
  table_put = λ t j a k. if eq_bytes j k then some a else t k;
  table_remove = λ t j k. if eq_bytes j k then none else t k;
  is_valid_key = λ k. true;
  get_friend_number = λ id w. some 0;
  friends_get = λ n w. some (97 ∷ []);
  generate_tid = λ w. (5, w);
  alloc = λ w. (true, w);
  dht_friend_message = λ n m w. (ok 0, w ++ (n, m) ∷ []);
  gettimeofday = λ w. (record { sec = 1600000000; usec = 0 }, w);
}

pub simple-IsLawfulTable : IsLawfulTable simple
simple-IsLawfulTable = record {
  get-put = λ t k a. rw (eq_bytes_refl k) refl;
  get-remove = λ t k. rw (eq_bytes_refl k) refl;
}

pub simple-IsLog : IsLog simple (λ w. w)
simple-IsLog = record { log-alloc = λ w. refl; log-send = λ n m w k e. refl }
