-- ===== src/Migrations/Files.antt =====
-- Load, isSchemaFile and stripMetaCommands: which files of the schema directory are migrations.
use Prim.Native.Char.{Char, code}
use Prim.Native.String.{[] as nil, ◌∷◌ as cons}
use ecosystem_complete.Prelude.{
  String, Bool, false, ◌&&◌, ◌||◌, not, Option, none, some, List, [], ◌∷◌, ◌==◌, leb, eqb,
  if◌then◌else◌,
}
use ecosystem_complete.Prelude.Text.{trim_space}
use ecosystem_complete.Prelude.Split.{split_on, join_with}
use ecosystem_complete.Prelude.Sort.{leb_text, sort_by}
use ecosystem_complete.Migrations.{Migration}

-- An entry of os.ReadDir, and what os.ReadFile answers for it.
pub record Entry : Type 0 where
  pub name : String
  pub is_dir : Bool
  pub contents : Option String

abbrev pub bootstrap_file : String
bootstrap_file = "01-create-database.sql"

-- strings.HasSuffix
unfoldable pub has_suffix : String → String → Bool
has_suffix nil suffix = suffix == ""
has_suffix (cons c s) suffix = (cons c s == suffix) || has_suffix s suffix

abbrev is_digit : Char → Bool
is_digit c = leb 48 (code c) && leb (code c) 57

-- NN-
abbrev has_number : String → Bool
has_number (cons a (cons b (cons c _))) = is_digit a && is_digit b && eqb (code c) 45
has_number _ = false

-- isSchemaFile: two digits, a dash, and the suffix; the source's test of the length guards its indices
unfoldable pub is_schema_file : String → Bool
unfolding has_suffix
is_schema_file name = has_suffix name ".sql" && has_number name

abbrev is_meta_text : String → Bool
is_meta_text nil = false
is_meta_text (cons c s) = eqb (code c) 92

-- strings.HasPrefix(strings.TrimSpace(line), `\`)
unfoldable pub is_meta : String → Bool
unfolding trim_space
is_meta line = is_meta_text (trim_space line)

unfoldable pub keep_lines : List String → List String
unfolding is_meta
keep_lines [] = []
keep_lines (line ∷ lines) =
    let rest = keep_lines lines in if is_meta line then rest else line ∷ rest

-- stripMetaCommands
unfoldable pub strip_meta_commands : String → String
unfolding split_on keep_lines join_with
strip_meta_commands sql = join_with "\n" (keep_lines (split_on 10 sql))

-- The loop of Load; none is its error.
unfoldable pub read_entries : List Entry → Option (List Migration)
unfolding is_schema_file strip_meta_commands trim_space
read_entries [] = some []
read_entries (e ∷ entries) =
    let rest = read_entries entries in
    if e.is_dir || not (is_schema_file e.name) || (e.name == bootstrap_file)
    then rest
    else elim e.contents [
      | none ↦ none
      | some raw ↦ if trim_space (strip_meta_commands raw) == "" then rest else elim rest [
        | none ↦ none
        | some migrations ↦
            some (record { name = e.name; sql = strip_meta_commands raw } ∷ migrations)
      ]
    ]

-- Load; none for a directory that cannot be read
unfoldable pub load : Option (List Entry) → Option (List Migration)
unfolding read_entries sort_by
load none = none
load (some entries) = elim (read_entries entries) [
  | none ↦ none
  | some migrations ↦ some (sort_by (λ m n. leb_text m.name n.name) migrations)
]
