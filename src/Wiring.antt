-- ===== src/Wiring.antt =====
-- wallet/src/main.ts and the files *.module.ts: the modules of the program, and the constructors of
-- the classes that Nest makes. Making them is Nest's part; what it asks of a program is stated here.
pub mod Resolved
use tanta.Base.{List, [], ◌∷◌}

pub data Module : Type 0 where
  main_module controllers_module rest_module features_module : Module
  wallet_module transaction_module transferring_module notification_module user_module : Module
  database_module messaging_module : Module

-- The classes with `@Injectable()`, `@Controller()` or `@Catch()`, and Nest's `HttpAdapterHost`.
pub data Class : Type 0 where
  wallet_controller identity_access_guard all_exceptions_filter validation_pipe : Class
  logging_interceptor http_adapter_host : Class
  wallet_service wallet_repository transaction_service transaction_repository : Class
  transferring_service transferring_repository notification_service user_service : Class
  database_service messaging_service : Class

-- What `@Module({ … })` declares; a module or a class may be exported. `guards` are the classes that
-- the controllers name in `@UseGuards`, which Nest makes in the module of the controllers.
pub record Declaration : Type 0 where
  pub imports : List Module
  pub providers : List Class
  pub controllers : List Class
  pub guards : List Class
  pub exported_classes : List Class
  pub exported_modules : List Module

abbrev main_declaration : Declaration
main_declaration = record {
  imports = controllers_module ∷ features_module ∷ [];
  providers = [];
  controllers = [];
  guards = [];
  exported_classes = [];
  exported_modules = [];
}

abbrev controllers_declaration : Declaration
controllers_declaration = record {
  imports = rest_module ∷ [];
  providers = logging_interceptor ∷ [];
  controllers = [];
  guards = [];
  exported_classes = [];
  exported_modules = [];
}

-- The pipe is handed over as an object, `new ValidationPipe()`, the filter as a class.
abbrev rest_declaration : Declaration
rest_declaration = record {
  imports = features_module ∷ [];
  providers = validation_pipe ∷ all_exceptions_filter ∷ [];
  controllers = wallet_controller ∷ [];
  guards = identity_access_guard ∷ [];
  exported_classes = [];
  exported_modules = [];
}

abbrev features_declaration : Declaration
features_declaration = record {
  imports =
      wallet_module ∷ transaction_module ∷ transferring_module ∷ notification_module ∷ user_module
      ∷ [];
  providers = [];
  controllers = [];
  guards = [];
  exported_classes = [];
  exported_modules =
      wallet_module ∷ transaction_module ∷ transferring_module ∷ notification_module ∷ user_module
      ∷ [];
}

abbrev wallet_declaration : Declaration
wallet_declaration = record {
  imports = database_module ∷ [];
  providers = wallet_service ∷ wallet_repository ∷ [];
  controllers = [];
  guards = [];
  exported_classes = wallet_service ∷ [];
  exported_modules = [];
}

abbrev transaction_declaration : Declaration
transaction_declaration = record {
  imports = database_module ∷ wallet_module ∷ notification_module ∷ [];
  providers = transaction_service ∷ transaction_repository ∷ [];
  controllers = [];
  guards = [];
  exported_classes = transaction_service ∷ [];
  exported_modules = [];
}

abbrev transferring_declaration : Declaration
transferring_declaration = record {
  imports = wallet_module ∷ transaction_module ∷ database_module ∷ [];
  providers = transferring_service ∷ transferring_repository ∷ [];
  controllers = [];
  guards = [];
  exported_classes = transferring_service ∷ [];
  exported_modules = [];
}

abbrev notification_declaration : Declaration
notification_declaration = record {
  imports = messaging_module ∷ [];
  providers = notification_service ∷ [];
  controllers = [];
  guards = [];
  exported_classes = notification_service ∷ [];
  exported_modules = [];
}

abbrev user_declaration : Declaration
user_declaration = record {
  imports = messaging_module ∷ [];
  providers = user_service ∷ [];
  controllers = [];
  guards = [];
  exported_classes = user_service ∷ [];
  exported_modules = [];
}

abbrev database_declaration : Declaration
database_declaration = record {
  imports = [];
  providers = database_service ∷ [];
  controllers = [];
  guards = [];
  exported_classes = database_service ∷ [];
  exported_modules = [];
}

abbrev messaging_declaration : Declaration
messaging_declaration = record {
  imports = [];
  providers = messaging_service ∷ [];
  controllers = [];
  guards = [];
  exported_classes = messaging_service ∷ [];
  exported_modules = [];
}

unfoldable pub declaration : Module → Declaration
declaration main_module = main_declaration
declaration controllers_module = controllers_declaration
declaration rest_module = rest_declaration
declaration features_module = features_declaration
declaration wallet_module = wallet_declaration
declaration transaction_module = transaction_declaration
declaration transferring_module = transferring_declaration
declaration notification_module = notification_declaration
declaration user_module = user_declaration
declaration database_module = database_declaration
declaration messaging_module = messaging_declaration

-- The parameters of the constructor.
unfoldable pub constructor_of : Class → List Class
constructor_of wallet_controller = wallet_service ∷ transaction_service ∷ transferring_service ∷ []
constructor_of identity_access_guard = user_service ∷ []
constructor_of all_exceptions_filter = http_adapter_host ∷ []
constructor_of validation_pipe = []
constructor_of logging_interceptor = []
constructor_of http_adapter_host = []
constructor_of wallet_service = wallet_repository ∷ []
constructor_of wallet_repository = database_service ∷ []
constructor_of transaction_service =
    transaction_repository ∷ wallet_service ∷ notification_service ∷ []
constructor_of transaction_repository = database_service ∷ []
constructor_of transferring_service = wallet_service ∷ transaction_service ∷ []
constructor_of transferring_repository = database_service ∷ []
constructor_of notification_service = messaging_service ∷ []
constructor_of user_service = messaging_service ∷ []
constructor_of database_service = []
constructor_of messaging_service = []
