-- ===== src/System/Keys.antt =====
-- What the invariant means for the raw tokens: a reservation has one key at most, and so has the
-- agent of a host. As in System.Reach, requests run one after another, each as one transaction; two that
-- run at the same time on PostgreSQL's READ COMMITTED may each revoke before the other inserts.
use smart_classroom.Prelude.{ℕ, ◌≡◌, some, true, arith, String, select_one, select_one-holds, IsIn}
use smart_classroom.Domain.Settings.{Settings}
use smart_classroom.Domain.Rows.{Token, connect, agent}
use smart_classroom.Domain.Db.{Db}
use smart_classroom.Tokens.Store.{is_valid_for}
use smart_classroom.Tokens.Connect.{is_active_for, verify_connect_token}
use smart_classroom.Tokens.Agent.{is_agent_of, verify_agent_token}
use smart_classroom.Tokens.Exclusive.{active_unique, agent_unique}
use smart_classroom.Hosts.Status.{World}
use smart_classroom.System.Reach.{Reach, Reach-Inv}

-- A connect token that verifies is a row of the table that is open for its reservation.
connect_row :
    (digest : String → String) (t : ℕ) (raw : String) (db : Db) (x : Token) (i : ℕ)
    → verify_connect_token digest t raw db ≡ some x
    → x.reservation_id ≡ some i
    → IsIn x db.tokens × (is_active_for i x ≡ true)
unfolding verify_connect_token
connect_row digest t raw db x i v s =
    let hit : select_one (is_valid_for connect (digest raw) t) db.tokens ≡ some x = ground arith in
    let row = select_one-holds (is_valid_for connect (digest raw) t) db.tokens hit in
    (row.0, ground (arith, row.1, s))

agent_row :
    (digest : String → String) (t : ℕ) (raw : String) (db : Db) (x : Token) (i : ℕ)
    → verify_agent_token digest t raw db ≡ some x
    → x.host_id ≡ some i
    → IsIn x db.tokens × (is_agent_of i x ≡ true)
unfolding verify_agent_token
agent_row digest t raw db x i v s =
    let hit : select_one (is_valid_for agent (digest raw) t) db.tokens ≡ some x = ground arith in
    let row = select_one-holds (is_valid_for agent (digest raw) t) db.tokens hit in
    (row.0, ground (arith, row.1, s))

module _ (digest : String → String) (settings : Settings) (w : World) (t u : ℕ)
    (first second : String) (x y : Token) (i : ℕ) (reach : Reach digest settings w) where
  -- In a state that the broker reaches by requests that run one after another, each as one
  -- transaction, two raw values that verify, at whatever instants, to connect tokens of one reservation
  -- verify to the same row.
  pub Reach-connect_key :
      verify_connect_token digest t first w.db ≡ some x
      → verify_connect_token digest u second w.db ≡ some y
      → x.reservation_id ≡ some i
      → y.reservation_id ≡ some i
      → x ≡ y
  Reach-connect_key v k p q =
      let a = connect_row digest t first w.db x i v p in
      let b = connect_row digest u second w.db y i k q in
      active_unique i x y w.db.tokens (Reach-Inv digest settings reach).exclusive a.0 b.0 a.1 b.1

  -- In a state that the broker reaches by requests that run one after another, each as one
  -- transaction, two raw values that verify, at whatever instants, to agent tokens of one host verify to
  -- the same row.
  pub Reach-agent_key :
      verify_agent_token digest t first w.db ≡ some x
      → verify_agent_token digest u second w.db ≡ some y
      → x.host_id ≡ some i
      → y.host_id ≡ some i
      → x ≡ y
  Reach-agent_key v k p q =
      let a = agent_row digest t first w.db x i v p in
      let b = agent_row digest u second w.db y i k q in
      agent_unique i x y w.db.tokens (Reach-Inv digest settings reach).exclusive a.0 b.0 a.1 b.1
