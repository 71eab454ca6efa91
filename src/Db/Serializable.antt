-- ===== src/Db/Serializable.antt =====
-- src/sql/database.rs: what commits is what the transactions make in the order of their commits.
use rusty_db.Prelude.{none, [], refl}
use rusty_db.Db.Catalog.{Catalog, Engine, EngineLaws, ExecutionResult}
use rusty_db.Db.Log.{Codec}
use rusty_db.Db.Database.{save}
use rusty_db.Db.Session.{rollback}
use rusty_db.Db.Durable.{CodecLaws}
use rusty_db.Db.Autocommit.{unchanged-IsAfter}
use rusty_db.Db.System.{
  System, Command, begin_in, statement_in, commit_in, rollback_in, checkpoint, step, committed_by,
  IsAllowed, IsSound,
}
use rusty_db.Db.Linked.{IsLinked-after, Grows, call-Grows}
use rusty_db.Db.Calls.{statement-Grows, commit-Grows, begin-Grows, checkpoint-IsAfter}

module _ {Line Tables Answer : Type 0} (e : Engine Tables Answer) (c : Codec Line Tables) where
  module _ (engine : EngineLaws e) (laws : CodecLaws c) where
    -- One call: the system stays sound, and the tables in memory become what the committed
    -- statements make of them.
    pub step-Grows :
        (command : Command Line) (sys : System Line Tables)
        → IsSound e c sys
        → IsAllowed e c command sys
        → Grows e c (committed_by e c command sys) sys (step e c command sys)
    unfolding step committed_by IsAllowed IsSound rollback
    step-Grows (begin_in i) sys (keeps, linked) allowed =
        begin-Grows e c engine laws i sys (sys.sessions i).transaction refl (linked i)
          (keeps, linked)
    step-Grows (statement_in i io d s) sys (keeps, linked) (can, faithful, stable) =
        statement-Grows e c engine laws i io d s sys (sys.sessions i).transaction refl can faithful
          stable (linked i) (keeps, linked)
    step-Grows (commit_in i io) sys (keeps, linked) can =
        commit-Grows e c engine laws i io sys (sys.sessions i).transaction refl can (linked i)
          (keeps, linked)
    step-Grows (rollback_in i) sys (keeps, linked) allowed =
        call-Grows e c [] sys i ExecutionResult.transaction_rolled_back sys.database
          (record (sys.sessions i) { transaction = none }) (keeps, linked)
          (unchanged-IsAfter e c sys.database keeps) tt
    step-Grows (checkpoint io) sys (keeps, linked) allowed =
        let after = checkpoint-IsAfter e c engine laws io sys.database allowed keeps in
        (
          (
            after.0,
            λ j.
                IsLinked-after e c [] sys.database (save e c io sys.database).1
                  (sys.sessions j).transaction after (linked j),
          ),
          after.1,
        )
