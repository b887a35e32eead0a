-- ===== src/Store/Tests.antt =====
-- Runs of the table of process records on small tables, and the witnesses.
use pmmcp.Prelude.{String, ◌≡◌, refl, none, [], ◌∷◌}
use pmmcp.Prelude.Result.{ok, err}
use pmmcp.Prelude.Time.{Time}
use pmmcp.Domain.{
  Process, validate, validate_command, check_args, is_valid_status, is_valid_desired,
}
use pmmcp.Store.{
  Table, store_conflict, null_runtime, has_id, is_same_live, clashes, get, created, create, updated,
  write_row, write, next_token, update_cas, list, matches, place,
}
use pmmcp.Store.Unique.{by_create, here, next, Reach-one_holder}
use pmmcp.Store.Answers.{update_cas-race}

abbrev process : String → String → Process
process id name = record {
  id = id;
  name = name;
  command = "serve" ∷ [];
  cwd = "/srv";
  status = "running";
  desired = "running";
  project_id = "shop";
  profile = "";
  session_id = "s1";
  sandbox = "standard";
  runtime = "";
  pid = 7;
  exit_code = none;
  last_error = "";
  log_dir = "";
  env_keys = [];
  predecessor_id = "";
  successor_id = "";
  created_at = 0;
  updated_at = 0;
  started_at = none;
  exited_at = none;
}

-- The row of a process that was created at that time.
abbrev row : Time → String → String → Process
row now id name = record (process id name) { runtime = "local"; created_at = now; updated_at = now }

abbrev web_and_db : Table
web_and_db = row 6 "p2" "db" ∷ row 5 "p1" "web" ∷ []

create-second : create 6 (process "p2" "db") (row 5 "p1" "web" ∷ []) ≡ ok web_and_db
unfolding create created null_runtime has_id clashes is_same_live validate validate_command
    check_args is_valid_status is_valid_desired
create-second = refl

-- A name that is held, also by a process that has exited.
create-held :
    create 7 (process "p3" "web") (record (row 5 "p1" "web") { status = "exited" } ∷ [])
    ≡ err store_conflict
unfolding create has_id clashes is_same_live validate validate_command check_args is_valid_status
    is_valid_desired
create-held = refl

list_oldest_first :
    list (record { project_id = "shop"; status = ""; name = "" }) web_and_db
    ≡ row 5 "p1" "web" ∷ row 6 "p2" "db" ∷ []
unfolding list matches place
list_oldest_first = refl

abbrev web_id : String
web_id = "p1"

Reach-one_holder_example : web_id ≡ web_id
unfolding create created null_runtime has_id clashes is_same_live validate validate_command
    check_args is_valid_status is_valid_desired get
Reach-one_holder_example =
    Reach-one_holder web_and_db (row 5 "p1" "web") (row 5 "p1" "web") "p1" "p1"
      (next (next here (by_create 5 (process "p1" "web") refl))
        (by_create 6 (process "p2" "db") refl))
      refl refl refl refl refl refl

update_cas-race_example :
    update_cas 4
      (record (row 6 "p2" "db") { status = "failed" })
      (write_row 9 (record (row 6 "p2" "db") { status = "exited" }) web_and_db)
    ≡ err store_conflict
unfolding update_cas write write_row updated null_runtime has_id clashes is_same_live validate
    validate_command check_args is_valid_status is_valid_desired get next_token
update_cas-race_example =
    update_cas-race 9 4 (record (row 6 "p2" "db") { status = "exited" })
      (record (row 6 "p2" "db") { status = "failed" }) web_and_db
      (write_row 9 (record (row 6 "p2" "db") { status = "exited" }) web_and_db) refl refl refl refl
