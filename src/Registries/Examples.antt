-- ===== src/Registries/Examples.antt =====
-- Runs of the registries.
use io_thread_controller.Base.{ℕ, ◌+◌, ◌≡◌, refl, String, List, [], ◌∷◌}
use io_thread_controller.Registries.{
  no_such_engine, built, failed, EngineRegistration, BackendRegistration, load_registered_engine,
  insert_backend, sort_backends, build_before, build_all, registered_backends, discover_all,
}

abbrev engines : List (EngineRegistration String ℕ String)
engines = record { name = "threshold"; build = λ dir durations. (built dir, durations + 1) } ∷ []

load_registered_engine-known :
    load_registered_engine engines "/engines" "threshold" 0 ≡ (built "/engines", 1)
unfolding load_registered_engine
load_registered_engine-known = refl

load_registered_engine-unknown :
    load_registered_engine engines "/engines" "other" 0 ≡ (failed (no_such_engine "other"), 0)
unfolding load_registered_engine
load_registered_engine-unknown = refl

abbrev backends : List (BackendRegistration String String)
backends =
    record { name = "spdk"; build = λ dir. built "spdk" }
    ∷ record { name = "qemu"; build = λ dir. built "qemu" }
    ∷ []

registered_backends-sorted :
    registered_backends (λ b. b) "/backends" backends ≡ built ("qemu" ∷ "spdk" ∷ [])
unfolding registered_backends build_all build_before sort_backends insert_backend
registered_backends-sorted = refl

discover_all-in_order :
    discover_all (λ (b : String) (w : ℕ). (b ∷ b ∷ [], b, w + 1)) ("qemu" ∷ "spdk" ∷ []) 0
    ≡ ("qemu" ∷ "qemu" ∷ "spdk" ∷ "spdk" ∷ [], "qemu" ∷ "spdk" ∷ [], 2)
unfolding discover_all
discover_all-in_order = refl
