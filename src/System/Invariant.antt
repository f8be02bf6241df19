-- ===== src/System/Invariant.antt =====
-- The invariant of the database, and the calculus by which the endpoints are shown to keep it:
-- one rule for each way to build a service, and one lemma for each statement that writes.
use smart_classroom.Prelude.{
  ℕ, ◌≡◌, sym, subst, ap, Bool, true, false, ◌∷◌, Option, none, some, arith, String, if◌then◌else◌,
  update_where, All,
}
use smart_classroom.Domain.Rows.{Token, Purpose}
use smart_classroom.Domain.Audit.{AuditEntry}
use smart_classroom.Domain.Db.{
  Db, M, Error, ok, pure, raise_if, gets, or_raise, write_audit, ◌>>=◌, ◌>>◌, bind-ok,
}
use smart_classroom.Reservation.Overlap.{NoOverlap}
use smart_classroom.Reservation.Placed.{IsPlaced, ArePlaced, Grows, Grows-refl, Grows-ArePlaced}
use smart_classroom.Tokens.Unique.{
  HasUniqueKeys, update-HasUniqueKeys, revoked-KeepsKeys, Inserted-HasUniqueKeys,
}
use smart_classroom.Tokens.Exclusive.{Exclusive, update-Exclusive, revoked-Closes}
use smart_classroom.Tokens.Store.{revoke_where, set_revoked}
use smart_classroom.Tokens.Issuing.{Inserted}
use smart_classroom.Api.Reservations.{rescue}

-- No overlapping active reservations, each for a host that exists and with bounds; unique keys in the
-- table of tokens, and one open token at most for each reservation and for each host's agent.
pub record Inv (db : Db) : Type 0 where
  pub no_overlap : NoOverlap db.reservations
  pub placed : ArePlaced db
  pub unique_keys : HasUniqueKeys db.next_token_id db.tokens
  pub exclusive : Exclusive db.tokens

-- A service keeps the invariant whenever it succeeds; a failure leaves no new state.
pub record Keeps {A : Type 0} (m : M A) : Type 0 where
  pub keeps : (db db' : Db) (a : A) → Inv db → m db ≡ ok (a, db') → Inv db'

-- A step that touches neither table, and takes no host away.
pub Inv-hosts :
    {db db' : Db}
    → Inv db
    → Grows db.hosts db'.hosts
    → db'.reservations ≡ db.reservations
    → db'.tokens ≡ db.tokens
    → db'.next_token_id ≡ db.next_token_id
    → Inv db'
Inv-hosts {db} {db'} v g r t n = record {
  no_overlap = subst NoOverlap (sym r) v.no_overlap;
  placed =
      subst (All (IsPlaced db'.hosts)) (sym r)
        (Grows-ArePlaced db.hosts db'.hosts db.reservations g v.placed);
  unique_keys = rw (n, t) v.unique_keys;
  exclusive = rw t v.exclusive;
}

-- A step that touches none of the three tables.
pub Inv-frame :
    {db db' : Db}
    → Inv db
    → db'.hosts ≡ db.hosts
    → db'.reservations ≡ db.reservations
    → db'.tokens ≡ db.tokens
    → db'.next_token_id ≡ db.next_token_id
    → Inv db'
Inv-frame {db} {db'} v h = Inv-hosts v (subst (Grows db.hosts) (sym h) (Grows-refl db.hosts))

module _ {A : Type 0} where
  pub Keeps-pure : (a : A) → Keeps (pure a)
  Keeps-pure a = record {
    keeps = λ db db' b v e. Inv-frame v (ground arith) (ground arith) (ground arith) (ground arith);
  }

  pub Keeps-gets : (f : Db → A) → Keeps (gets f)
  Keeps-gets f = record {
    keeps = λ db db' b v e. Inv-frame v (ground arith) (ground arith) (ground arith) (ground arith);
  }

  pub Keeps-or_raise : (o : Option A) (x : Error) → Keeps (or_raise o x)
  Keeps-or_raise none x = record { keeps = λ db db' b v e. absurd (ground arith) }
  Keeps-or_raise (some a) x = record {
    keeps = λ db db' b v e. Inv-frame v (ground arith) (ground arith) (ground arith) (ground arith);
  }

  pub Keeps-rescue : (f : Error → Error) (m : M A) → Keeps m → Keeps (rescue f m)
  Keeps-rescue f m k = record { keeps = λ db db' b v e. k.keeps db db' b v (ground arith) }

  pub Keeps-if : (b : Bool) (m n : M A) → Keeps m → Keeps n → Keeps (if b then m else n)
  Keeps-if true m n k l = k
  Keeps-if false m n k l = l

pub Keeps-raise_if : (b : Bool) (x : Error) → Keeps (raise_if b x)
Keeps-raise_if true x = record { keeps = λ db db' b v e. absurd (ground arith) }
Keeps-raise_if false x = record {
  keeps = λ db db' b v e. Inv-frame v (ground arith) (ground arith) (ground arith) (ground arith);
}

pub Keeps-audit : (entry : AuditEntry) → Keeps (write_audit entry)
Keeps-audit entry = record {
  keeps = λ db db' b v e. Inv-frame v (ground arith) (ground arith) (ground arith) (ground arith);
}

pub Keeps-bind :
    {A B : Type 0} {m : M A} {f : A → M B} → Keeps m → ((a : A) → Keeps (f a)) → Keeps (m >>= f)
Keeps-bind {m = m} {f = f} k l = record {
  keeps = λ db db' b v e.
      let (p, first, rest) = bind-ok m f db e in
      (l p.0).keeps p.1 db' b (k.keeps db p.1 p.0 v first) rest;
}

pub Keeps-then : {B : Type 0} {m : M (Unit {0})} {n : M B} → Keeps m → Keeps n → Keeps (m >> n)
Keeps-then k l = Keeps-bind k (λ _. l)

pub Keeps-revoke_where : (now : ℕ) (p : Token → Bool) → Keeps (revoke_where now p)
unfolding revoke_where
Keeps-revoke_where now p = record {
  keeps = λ db db' n v e.
      let same : record db { tokens = update_where p (set_revoked now) db.tokens } ≡ db' =
        ground arith in
      subst Inv same (record {
        no_overlap = v.no_overlap;
        placed = v.placed;
        unique_keys =
            update-HasUniqueKeys (set_revoked now) p (revoked-KeepsKeys now) db.next_token_id
              db.tokens v.unique_keys;
        exclusive = update-Exclusive (set_revoked now) p (revoked-Closes now) db.tokens v.exclusive;
      });
}

-- An INSERT into the table of tokens keeps it if the new row leaves the table exclusive.
pub Inserted-Inv :
    (db db' : Db) (jti : String) (u : ℕ) (h r : Option ℕ) (p : Purpose) (i e : ℕ) (t : Token)
    → Inserted db jti u h r p i e t db'
    → Exclusive (t ∷ db.tokens)
    → Inv db
    → Inv db'
Inserted-Inv db db' jti u h r p i e t facts alone v = record {
  no_overlap = subst NoOverlap (sym (ap (λ (d : Db). d.reservations) facts.rows)) v.no_overlap;
  placed = subst ArePlaced (sym facts.rows) v.placed;
  unique_keys = Inserted-HasUniqueKeys db db' jti u h r p i e t facts v.unique_keys;
  exclusive = subst Exclusive (sym (ap (λ (d : Db). d.tokens) facts.rows)) alone;
}

pub ruleset keeps_rules = (
  Keeps-pure, Keeps-gets, Keeps-or_raise, Keeps-rescue, Keeps-if, Keeps-raise_if, Keeps-audit,
  Keeps-then, Keeps-bind, Keeps-revoke_where,
)
