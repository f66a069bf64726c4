-- ===== src/Store/Sql.antt =====
-- The SQL database under internal/store: some tables, and the refusals to come. A statement runs on
-- its own; one that the database refuses, such as one that violates a foreign key, changes nothing.
use gslb.Prelude.{
  String, Bool, ◌||◌, true, ◌≡◌, contains, if◌then◌else◌, Option, none, some, List, [], ◌∷◌, arith,
}
use gslb.Result.{GoError, message, wrapped, annotated, foreign_key_violation, Result, ok, err, Exec}

-- `faults` says which of the next statements the database refuses, and with what message.
pub record Database (T : Type 0) : Type 0 where
  pub rows : T
  pub faults : List (Option String)

-- One statement of a function that wraps the errors in a text.
unfoldable pub statement : {T A : Type 0} → String → (T → Result A × T) → Exec (Database T) A
statement text run db =
    let ran = run db.rows in
    elim db.faults [
      | [] ↦ (ran.0, record db { rows = ran.1 })
      | none ∷ later ↦ (ran.0, record { rows = ran.1; faults = later })
      | some e ∷ later ↦ (err (wrapped text (message e)), record db { faults = later })
    ]

-- What the database does with a statement on its tables: it refuses it, or it runs it. The result of
-- the run is what the Go function makes of the rows.
pub data Ran (T A : Type 0) : Type 0 where
  refused : String → Ran T A
  done : Result A → T → Ran T A

abbrev pub settle :
    {T A : Type 0} → (String → GoError) → Ran T A → Database T → Result A × Database T
settle on_error (refused e) db = (err (on_error e), db)
settle on_error (done r t) db = (r, record db { rows = t })

-- A statement with constraints; `on_error` is what the Go function makes of an error's text.
unfoldable pub attempt : {T A : Type 0} → (String → GoError) → (T → Ran T A) → Exec (Database T) A
attempt on_error run db =
    let ran = run db.rows in
    elim db.faults [
      | [] ↦ settle on_error ran db
      | none ∷ later ↦ settle on_error ran (record db { faults = later })
      | some e ∷ later ↦ (err (on_error e), record db { faults = later })
    ]

-- `if isForeignKeyError(err) { ... }` and the context that is added otherwise.
abbrev pub is_foreign_key_error : String → Bool
is_foreign_key_error e = contains e "FOREIGN KEY" || contains e "foreign key"

abbrev pub in_context : String → String → GoError
in_context text e = wrapped text (message e)

abbrev pub foreign_key_or : String → String → GoError
foreign_key_or text e =
    if is_foreign_key_error e then annotated foreign_key_violation e else wrapped text (message e)

-- A test that the tables pass, and those that a statement writes, is passed after the statement.
pub statement_keeps :
    {T A : Type 0} (p : T → Bool) (text : String) (run : T → Result A × T) (db : Database T)
    → p db.rows ≡ true
    → p (run db.rows).1 ≡ true
    → p (statement text run db).1.rows ≡ true
unfolding statement
statement_keeps p text run db h k = ground (arith, h, k)

-- The tables after a statement that meets no other error.
abbrev pub tables_after : {T A : Type 0} → T → Ran T A → T
tables_after t (refused e) = t
tables_after t (done r u) = u

-- So it is for a statement with constraints.
pub attempt_keeps :
    {T A : Type 0} (p : T → Bool) (on_error : String → GoError) (run : T → Ran T A)
    (db : Database T)
    → p db.rows ≡ true
    → p (tables_after db.rows (run db.rows)) ≡ true
    → p (attempt on_error run db).1.rows ≡ true
unfolding attempt
attempt_keeps p on_error run db h k = ground (arith, h, k)

-- A statement that ends without an error ran, and left the tables that the run made.
pub attempt_ran :
    {T A : Type 0} (on_error : String → GoError) (run : T → Ran T A) (db : Database T) (a : A)
    → (attempt on_error run db).0 ≡ ok a
    → run db.rows ≡ done (ok a) (attempt on_error run db).1.rows
unfolding attempt
attempt_ran on_error run db a h = ground (arith, h)

-- The same tables, and no refusal to come.
abbrev pub calm : {T : Type 0} → Database T → Database T
calm db = record db { faults = [] }
