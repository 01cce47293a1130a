-- ===== src/Db/Bolts.antt =====
-- internal/db/audit_bolt_store.go: the bolts table.
use devteam.Prelude.{
  Bool, List, Option, String, Text, [], change, false, keep, leb, none, some, true, ℕ, ◌&&◌, ◌∷◌,
  ◌++◌, ◌==◌, if◌then◌else◌, nat_eq, string_eq, text_eq,
}
use devteam.Db.Types.{BoltRow, BoltStatus, Database}
use devteam.Db.Order.{order_by}

unfoldable pub create_bolt : Database → ℕ → String → ℕ → List Text → List ℕ → Bool → Database × Bool
create_bolt db now feature_id bolt_number unit_ids depends_on is_walking_skeleton =
    if db.up
    then (
      record db {
        bolts =
            db.bolts
            ++ record {
              feature_id = feature_id;
              bolt_number = bolt_number;
              unit_ids = unit_ids;
              depends_on = depends_on;
              status = BoltStatus.pending;
              is_walking_skeleton = is_walking_skeleton;
              created_at = now;
            }
              ∷ [];
      },
      true,
    )
    else (db, false)

abbrev pub bolt_order : BoltRow → BoltRow → Bool
bolt_order a b = leb a.bolt_number b.bolt_number

unfoldable pub get_bolts : Database → String → Option (List BoltRow)
get_bolts db feature_id =
    if db.up
    then some (order_by bolt_order (keep (λ b. b.feature_id == feature_id) db.bolts))
    else none

unfoldable pub update_bolt_status : Database → String → ℕ → BoltStatus → Database × Bool
update_bolt_status db feature_id bolt_number status =
    if db.up
    then (
      record db {
        bolts =
            change (λ b. b.feature_id == feature_id && b.bolt_number == bolt_number)
              (λ b. record b { status = status }) db.bolts;
      },
      true,
    )
    else (db, false)
