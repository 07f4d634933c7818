-- ===== src/Server/Names.antt =====
-- The names of the clients (`AllocateClientName` and `ReleaseClientName`, src/server/server.cpp). A
-- control session is its reference.
pub mod Fresh
use cfrp.Base.{
  ℕ, zero, suc, List, [], ◌∷◌, ◌++◌, Option, none, some, Bool, true, false, if◌then◌else◌, length,
}
use cfrp.Base.Dict.{insert, erase, text_eq}
use cfrp.Base.Text.{Text, codes, to_string}
use cfrp.Base.TextSet.{contains, add, remove}

pub record Names : Type 0 where
  -- `active_client_names_` and `sessions_`
  pub active : List Text
  pub sessions : List (Text × ℕ)

abbrev pub base_name : Text → Text
base_name [] = codes "client"
base_name (c ∷ s) = c ∷ s

abbrev pub numbered : Text → ℕ → Text
numbered name k = name ++ (codes "_" ++ to_string k)

-- The loop of `AllocateClientName`, for as many rounds as the fuel allows.
unfoldable pub free_name : ℕ → List Text → Text → Text → ℕ → Option Text
free_name zero active name final_name suffix = none
free_name (suc fuel) active name final_name suffix =
    let rest = free_name fuel active name (numbered name suffix) (suc suffix) in
    if contains final_name active then rest else some final_name

abbrev pub enter : Text → ℕ → Names → Names
enter name session r = record {
  active = add name r.active;
  sessions = insert name session r.sessions;
}

-- One round more than there are names.
unfoldable pub allocate_client_name : Text → ℕ → Names → Option (Text × Names)
unfolding free_name
allocate_client_name requested session r =
    let name = base_name requested in
    elim (free_name (suc (length r.active)) r.active name name 1) [
      | none ↦ none
      | some final_name ↦ some (final_name, enter final_name session r)
    ]

unfoldable pub release_client_name : Text → Names → Names
release_client_name name r = record {
  active = remove name r.active;
  sessions = erase name r.sessions;
}
