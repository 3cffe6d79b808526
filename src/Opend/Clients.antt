-- ===== src/Opend/Clients.antt =====
-- The table of opend/client.c. An empty list stands for the null pointer. What `malloc` leaves in the `uid`
-- of a new entry is an argument, and so is whether it finds room.
pub mod Kept
use apue_2e.Base.{
  ℕ, zero, suc, ◌+◌, ◌==◌, ◌≡◌, ◌⊎◌, inl, inr, refl, ap, sym, ◌∙◌, subst, Bool, true, false,
  if◌then◌else◌, Option, none, some, List, [], ◌∷◌, ◌++◌, length, All, All-join, All-split, ℤ, pos,
  negsuc, arith, Bool-cases, append-nil,
}

pub record Client : Type 0 where
  pub fd : ℤ
  pub uid : ℕ

-- `client[i].fd == -1`
unfoldable pub available : Client → Bool
available c = elim c.fd [ pos n ↦ false | negsuc n ↦ n == 0 ]

-- The entries of `NALLOC` clients that `client_alloc` initializes.
unfoldable pub blanks : (ℕ → ℕ) → ℕ → ℕ → List Client
blanks junk i zero = []
blanks junk i (suc n) = record { fd = negsuc 0; uid = junk i } ∷ blanks junk (i + 1) n

abbrev pub nalloc : ℕ
nalloc = 10

-- `client_alloc`
unfoldable pub client_alloc : (ℕ → ℕ) → List Client → List Client
unfolding blanks
client_alloc junk table = table ++ blanks junk (length table) nalloc

-- The search for an available entry, and the client in it.
unfoldable pub place : Client → List Client → Option (ℕ × List Client)
unfolding available
place new [] = none
place new (c ∷ table) =
    let rest : Option (ℕ × List Client) = elim (place new table) [
      | none ↦ none
      | some (i, t) ↦ some (suc i, c ∷ t)
    ] in
    if available c then some (0, new ∷ table) else rest

-- How `client_add` ends: `err_sys`, the index and the table, or another round of the loop.
pub data Added : Type 0 where
  no_memory : Added
  added : ℕ → List Client → Added
  unfinished : Added

-- From the label `again`
unfoldable pub again : ℕ → Bool → (ℕ → ℕ) → Client → List Client → Added
unfolding place client_alloc
again zero room junk new table = unfinished
again (suc fuel) room junk new table =
    let grown = again fuel room junk new (client_alloc junk table) in
    elim (place new table) [ some (i, t) ↦ added i t | none ↦ if room then grown else no_memory ]

-- `client_add`: the loop is entered twice at most.
unfoldable pub client_add : Bool → (ℕ → ℕ) → ℤ → ℕ → List Client → Added
unfolding again client_alloc
client_add room junk fd uid [] =
    if room
    then again 2 room junk (record { fd = fd; uid = uid }) (client_alloc junk [])
    else no_memory
client_add room junk fd uid (c ∷ table) =
    again 2 room junk (record { fd = fd; uid = uid }) (c ∷ table)

unfoldable pub is_fd : ℤ → ℤ → Bool
is_fd (pos a) (pos b) = a == b
is_fd (pos a) (negsuc b) = false
is_fd (negsuc a) (pos b) = false
is_fd (negsuc a) (negsuc b) = a == b

-- `client_del`: `none` for `log_quit`.
unfoldable pub client_del : ℤ → List Client → Option (List Client)
unfolding is_fd
client_del fd [] = none
client_del fd (c ∷ table) =
    let rest : Option (List Client) = elim (client_del fd table) [
      | none ↦ none
      | some t ↦ some (c ∷ t)
    ] in
    if is_fd c.fd fd then some (record c { fd = negsuc 0 } ∷ table) else rest

-- The clients that are connected.
unfoldable pub connected : List Client → List Client
unfolding available
connected [] = []
connected (c ∷ table) = let rest = connected table in if available c then rest else c ∷ rest
