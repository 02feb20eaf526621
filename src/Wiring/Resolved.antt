-- ===== src/Wiring/Resolved.antt =====
-- The files *.module.ts and the constructors of the injected classes together: every class that is
-- asked for can be made.
use tanta.Base.{◌≡◌, ◌⊎◌, refl, inl, inr, List, [], ◌∷◌, ◌++◌, All}
use tanta.Wiring.{
  Module, main_module, controllers_module, rest_module, features_module, wallet_module,
  transaction_module, transferring_module, notification_module, user_module, database_module,
  messaging_module, Class, wallet_controller, identity_access_guard, all_exceptions_filter,
  validation_pipe, logging_interceptor, http_adapter_host, wallet_service, wallet_repository,
  transaction_service, transaction_repository, transferring_service, transferring_repository,
  notification_service, user_service, database_service, messaging_service, declaration,
  constructor_of,
}

abbrev pub Among : {A : Type 0} → A → List A → Type 0
Among x [] = ⊥
Among x (y ∷ ys) = (x ≡ y) ⊎ Among x ys

-- The classes that Nest makes in a module.
abbrev pub made : Module → List Class
made m = (declaration m).providers ++ (declaration m).controllers ++ (declaration m).guards

-- What Nest's documentation says of exports: a module exports a class that it provides, or whatever a
-- module that it exports does. The second module is the one that provides the class.
pub data IsExported : Module → Module → Class → Type 0 where
  own :
      {m : Module} {c : Class}
      → Among c (declaration m).exported_classes
      → Among c (declaration m).providers
      → IsExported m m c
  through :
      {m m' home : Module} {c : Class}
      → Among m' (declaration m).exported_modules
      → IsExported m' home c
      → IsExported m home c

-- A class is seen in a module that provides it, and in one that imports a module that exports it.
pub data IsVisible : Module → Module → Class → Type 0 where
  provided : {m : Module} {c : Class} → Among c (declaration m).providers → IsVisible m m c
  imported :
      {m m' home : Module} {c : Class}
      → Among m' (declaration m).imports
      → IsExported m' home c
      → IsVisible m home c

-- A class is made once the parameters of its constructor are, each in the module that provides it.
-- `HttpAdapterHost` is Nest's, and seen everywhere.
mutual
  pub data IsMade : Module → Class → Type 0 where
    make :
        {m : Module} {c : Class} → Among c (made m) → AreSupplied m (constructor_of c) → IsMade m c

  pub data AreSupplied : Module → List Class → Type 0 where
    all_supplied : {m : Module} → AreSupplied m []
    supplied :
        {m home : Module} {c : Class} {cs : List Class}
        → IsVisible m home c
        → IsMade home c
        → AreSupplied m cs
        → AreSupplied m (c ∷ cs)
    nest_supplies :
        {m : Module} {cs : List Class} → AreSupplied m cs → AreSupplied m (http_adapter_host ∷ cs)

-- The module that provides the class, or in which a controller or its guard is made; the last clause
-- is for Nest's own class.
abbrev pub home_of : Class → Module
home_of wallet_controller = rest_module
home_of identity_access_guard = rest_module
home_of all_exceptions_filter = rest_module
home_of validation_pipe = rest_module
home_of logging_interceptor = controllers_module
home_of wallet_service = wallet_module
home_of wallet_repository = wallet_module
home_of transaction_service = transaction_module
home_of transaction_repository = transaction_module
home_of transferring_service = transferring_module
home_of transferring_repository = transferring_module
home_of notification_service = notification_module
home_of user_service = user_module
home_of database_service = database_module
home_of messaging_service = messaging_module
home_of http_adapter_host = main_module

database_service-IsMade : IsMade database_module database_service
unfolding declaration constructor_of
database_service-IsMade = make (inl refl) all_supplied

messaging_service-IsMade : IsMade messaging_module messaging_service
unfolding declaration constructor_of
messaging_service-IsMade = make (inl refl) all_supplied

wallet_repository-IsMade : IsMade wallet_module wallet_repository
unfolding declaration constructor_of
wallet_repository-IsMade = make (inr (inl refl)) (
    supplied (imported (inl refl) (own (inl refl) (inl refl))) database_service-IsMade all_supplied)

wallet_service-IsMade : IsMade wallet_module wallet_service
unfolding declaration constructor_of
wallet_service-IsMade =
    make (inl refl) (supplied (provided (inr (inl refl))) wallet_repository-IsMade all_supplied)

notification_service-IsMade : IsMade notification_module notification_service
unfolding declaration constructor_of
notification_service-IsMade = make (inl refl) (
    supplied (imported (inl refl) (own (inl refl) (inl refl))) messaging_service-IsMade
      all_supplied)

user_service-IsMade : IsMade user_module user_service
unfolding declaration constructor_of
user_service-IsMade = make (inl refl) (
    supplied (imported (inl refl) (own (inl refl) (inl refl))) messaging_service-IsMade
      all_supplied)

transaction_repository-IsMade : IsMade transaction_module transaction_repository
unfolding declaration constructor_of
transaction_repository-IsMade = make (inr (inl refl)) (
    supplied (imported (inl refl) (own (inl refl) (inl refl))) database_service-IsMade all_supplied)

transaction_service-IsMade : IsMade transaction_module transaction_service
unfolding declaration constructor_of
transaction_service-IsMade = make (inl refl) (
    supplied (provided (inr (inl refl))) transaction_repository-IsMade (
      supplied (imported (inr (inl refl)) (own (inl refl) (inl refl))) wallet_service-IsMade (
        supplied (imported (inr (inr (inl refl))) (own (inl refl) (inl refl)))
          notification_service-IsMade all_supplied)))

transferring_repository-IsMade : IsMade transferring_module transferring_repository
unfolding declaration constructor_of
transferring_repository-IsMade = make (inr (inl refl)) (
    supplied (imported (inr (inr (inl refl))) (own (inl refl) (inl refl))) database_service-IsMade
      all_supplied)

transferring_service-IsMade : IsMade transferring_module transferring_service
unfolding declaration constructor_of
transferring_service-IsMade = make (inl refl) (
    supplied (imported (inl refl) (own (inl refl) (inl refl))) wallet_service-IsMade (
      supplied (imported (inr (inl refl)) (own (inl refl) (inl refl))) transaction_service-IsMade
        all_supplied))

wallet_controller-IsMade : IsMade rest_module wallet_controller
unfolding declaration constructor_of
wallet_controller-IsMade = make (inr (inr (inl refl))) (
    supplied (imported (inl refl) (through (inl refl) (own (inl refl) (inl refl))))
      wallet_service-IsMade
      (supplied (imported (inl refl) (through (inr (inl refl)) (own (inl refl) (inl refl))))
        transaction_service-IsMade
        (supplied (imported (inl refl) (through (inr (inr (inl refl))) (own (inl refl) (inl refl))))
          transferring_service-IsMade all_supplied)))

identity_access_guard-IsMade : IsMade rest_module identity_access_guard
unfolding declaration constructor_of
identity_access_guard-IsMade = make (inr (inr (inr (inl refl)))) (
    supplied
      (imported (inl refl) (through (inr (inr (inr (inr (inl refl))))) (own (inl refl) (inl refl))))
      user_service-IsMade all_supplied)

-- Nest can make every class of every module: the parameters of a constructor can be made before it,
-- and each of them is provided in the same module, or is exported to it by a module that it imports.
-- No class is provided by two modules.
pub made-IsMade :
    (m : Module) → All (IsMade m) (made m) × All (λ c. home_of c ≡ m) (declaration m).providers
unfolding declaration constructor_of
made-IsMade main_module = (tt, tt)
made-IsMade controllers_module = ((make (inl refl) all_supplied, tt), (refl, tt))
made-IsMade rest_module = (
  (
    make (inl refl) all_supplied,
    (
      make (inr (inl refl)) (nest_supplies all_supplied),
      (wallet_controller-IsMade, (identity_access_guard-IsMade, tt)),
    ),
  ),
  (refl, (refl, tt)),
)
made-IsMade features_module = (tt, tt)
made-IsMade wallet_module =
    ((wallet_service-IsMade, (wallet_repository-IsMade, tt)), (refl, (refl, tt)))
made-IsMade transaction_module =
    ((transaction_service-IsMade, (transaction_repository-IsMade, tt)), (refl, (refl, tt)))
made-IsMade transferring_module =
    ((transferring_service-IsMade, (transferring_repository-IsMade, tt)), (refl, (refl, tt)))
made-IsMade notification_module = ((notification_service-IsMade, tt), (refl, tt))
made-IsMade user_module = ((user_service-IsMade, tt), (refl, tt))
made-IsMade database_module = ((database_service-IsMade, tt), (refl, tt))
made-IsMade messaging_module = ((messaging_service-IsMade, tt), (refl, tt))
