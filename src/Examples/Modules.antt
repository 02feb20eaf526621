-- ===== src/Examples/Modules.antt =====
-- A module of the program: a concrete input for the theorem on all of them.
use tanta.Base.{◌≡◌, All}
use tanta.Wiring.{transaction_module, declaration}
use tanta.Wiring.Resolved.{IsMade, made, home_of, made-IsMade}

made-IsMade_example :
    All (IsMade transaction_module) (made transaction_module)
    × All (λ c. home_of c ≡ transaction_module) (declaration transaction_module).providers
made-IsMade_example = made-IsMade transaction_module
