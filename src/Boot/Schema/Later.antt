-- ===== src/Boot/Schema/Later.antt =====
-- broker/alembic/versions/0002_token_host_nullable.py and 0003_host_sunshine_broker_token.py, and
-- the chain of the three migrations.
use smart_classroom.Prelude.{none}
use smart_classroom.Boot.Schema.{
  Column, varchar, Migration, ◌and_then◌, set_nullable, add_column, drop_column,
}
use smart_classroom.Boot.Schema.Tables.{nullable_column}
use smart_classroom.Boot.Schema.Initial.{upgrade}

unfoldable pub upgrade_0002 : Migration
upgrade_0002 = set_nullable "tokens" "host_id"

-- It raises: rows of sessions have no host.
unfoldable pub downgrade_0002 : Migration
downgrade_0002 s = none

abbrev pub sunshine_broker_token : Column
sunshine_broker_token = nullable_column "sunshine_broker_token" (varchar 128)

unfoldable pub upgrade_0003 : Migration
upgrade_0003 = add_column "hosts" sunshine_broker_token

unfoldable pub downgrade_0003 : Migration
downgrade_0003 = drop_column "hosts" "sunshine_broker_token"

-- `alembic upgrade head`
unfoldable pub upgrade_head : Migration
upgrade_head = upgrade and_then upgrade_0002 and_then upgrade_0003
