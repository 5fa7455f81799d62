-- ===== src/Registries.antt =====
-- src/engines/mod.rs and src/backends/mod.rs: the registries of engines and of backends, which the link
-- fills, and `discover_all` of src/daemon.rs. The order of a registry is unspecified.
mod Examples
use io_thread_controller.Base.{ℕ, Bool, String, List, [], ◌∷◌, ◌++◌, if◌then◌else◌}
use Prim.Native.String.{compare}
use text.Mathlib.Text.{is_le}
use io_thread_controller.Base.Table.{same_id}

-- `EngineError`, with what a factory reports.
pub data EngineError (X : Type 0) : Type 0 where
  engine : X → EngineError X
  no_such_engine : String → EngineError X

pub data Built (X A : Type 0) : Type 0 where
  built : A → Built X A
  failed : X → Built X A

-- `EngineRegistration` and `BackendRegistration`: a factory takes the directory of settings.
pub record EngineRegistration (X P A : Type 0) : Type 0 where
  pub name : String
  pub build : String → P → Built (EngineError X) A × P

pub record BackendRegistration (X B : Type 0) : Type 0 where
  pub name : String
  pub build : String → Built X B

-- The first engine of the name is built; `P` is the converter of durations.
unfoldable pub load_registered_engine :
    {X P A : Type 0}
    → List (EngineRegistration X P A)
    → (dir name : String) → P
    → Built (EngineError X) A × P
load_registered_engine [] dir name durations = (failed (no_such_engine name), durations)
load_registered_engine (registration ∷ rest) dir name durations =
    if same_id registration.name name
    then registration.build dir durations
    else load_registered_engine rest dir name durations

module _ {X B : Type 0} where
  unfoldable pub build_before : B → Built X (List B) → Built X (List B)
  build_before b (built backends) = built (b ∷ backends)
  build_before b (failed e) = failed e

  -- The loop: the first error ends it.
  unfoldable pub build_all : String → List (BackendRegistration X B) → Built X (List B)
  build_all dir [] = built []
  build_all dir (registration ∷ rest) =
      let others = build_all dir rest in
      elim (registration.build dir) [ built b ↦ build_before b others | failed e ↦ failed e ]

module _ {B : Type 0} (name_of : B → String) where
  -- `sort_by_key`, which keeps the order of equal names: each is put before those not below it.
  unfoldable pub insert_backend : B → List B → List B
  insert_backend b [] = b ∷ []
  insert_backend b (c ∷ rest) =
      let later = insert_backend b rest in
      if is_le (compare (name_of b) (name_of c)) then b ∷ c ∷ rest else c ∷ later

  unfoldable pub sort_backends : List B → List B
  sort_backends [] = []
  sort_backends (b ∷ rest) = insert_backend b (sort_backends rest)

  unfoldable pub registered_backends :
      {X : Type 0} → String → List (BackendRegistration X B) → Built X (List B)
  registered_backends dir registrations = elim (build_all dir registrations) [
    | built backends ↦ built (sort_backends backends)
    | failed e ↦ failed e
  ]

-- The inventories of all backends, discovered one after the other here, each with what discovery leaves of it.
unfoldable pub discover_all :
    {B I W : Type 0} → (B → W → List I × B × W) → List B → W → List I × List B × W
discover_all discover [] w = ([], [], w)
discover_all discover (b ∷ rest) w =
    let (found, b', w') = discover b w in
    let (others, rest', w'') = discover_all discover rest w' in (found ++ others, b' ∷ rest', w'')
