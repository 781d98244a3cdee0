-- ===== src/PlanReview/Terms.antt =====
-- The terms of graph/subgraphs/planning/risk.py.
use mcp_software_factory.Prelude.{List, [], ◌∷◌, String}

abbrev pub dependency_targets : List String
dependency_targets =
    "directory.packages.props" ∷ "package-lock.json" ∷ "package.json" ∷ "pyproject.toml"
    ∷ "requirements.txt" ∷ []

abbrev pub config_terms : List String
config_terms =
    "config" ∷ "configuration" ∷ "settings" ∷ "env" ∷ "runtime" ∷ "appsettings" ∷ "yaml" ∷ "yml"
    ∷ "toml" ∷ []

abbrev pub infra_terms : List String
infra_terms = "docker" ∷ "kubernetes" ∷ "terraform" ∷ "helm" ∷ "compose" ∷ []

abbrev pub security_terms : List String
security_terms =
    "auth" ∷ "authentication" ∷ "authorization" ∷ "credential" ∷ "credentials" ∷ "permission"
    ∷ "permissions" ∷ "secret" ∷ "secrets" ∷ "token" ∷ "tokens" ∷ []

abbrev pub database_terms : List String
database_terms = "database" ∷ "db" ∷ "migration" ∷ "migrations" ∷ "schema" ∷ "sql" ∷ []

abbrev pub destructive_terms : List String
destructive_terms =
    "delete" ∷ "drop" ∷ "remove" ∷ "reset" ∷ "truncate" ∷ "wipe" ∷ "borrar" ∷ "eliminar"
    ∷ "sobrescribir" ∷ "overwrite" ∷ "irreversible" ∷ []

abbrev pub create_terms : List String
create_terms =
    "add" ∷ "create" ∷ "crear" ∷ "agregar" ∷ "generate" ∷ "generar" ∷ "implement" ∷ "implementar"
    ∷ []

abbrev pub modify_terms : List String
modify_terms = "edit" ∷ "modify" ∷ "modificar" ∷ "update" ∷ "actualizar" ∷ "change" ∷ "cambiar" ∷ []
