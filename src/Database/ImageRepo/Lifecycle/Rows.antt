-- ===== src/Database/ImageRepo/Lifecycle/Rows.antt =====
-- What one call may do to the row of an id, and which statements do no more.
use text2image.Base.{
  ℕ, ℤ, suc_ℤ, eqb_ℤ, ◌≡◌, refl, Bool, true, false, not, ◌&&◌, Option, none, some, List, [], ◌∷◌,
  ◌++◌, All, if◌then◌else◌, arith, Bool-cases, inl, inr,
}
use text2image.Models.TaskStatus.{
  TaskStatus, pending, queued, generating, success, failed, cancelled, timeout, unknown,
}
use text2image.Database.Table.{Row, Table, is_finished, is_waiting, update_where, delete_where}
use text2image.Database.Table.Laws.{
  find_row, find_row-update, set_if, map_row, Distinct, delete-All,
}

-- The edges of the life cycle, and the loops on each status.
abbrev pub allowed : TaskStatus → TaskStatus → Bool
allowed pending pending = true
allowed pending generating = true
allowed pending cancelled = true
allowed queued queued = true
allowed queued generating = true
allowed queued cancelled = true
allowed generating generating = true
allowed generating queued = true
allowed generating success = true
allowed generating failed = true
allowed generating cancelled = true
allowed generating timeout = true
allowed success success = true
allowed failed failed = true
allowed failed queued = true
allowed cancelled cancelled = true
allowed cancelled queued = true
allowed timeout timeout = true
allowed timeout queued = true
allowed unknown unknown = true
allowed _ _ = false

-- A task that goes back to the queue has used one more attempt, and no other has.
abbrev pub retries_after : Row → TaskStatus → ℤ
retries_after r s =
    if not (is_waiting r.status) && is_waiting s then suc_ℤ r.retry_count else r.retry_count

-- The row of a task after a call: its identity and its request stay, its status follows an edge.
pub record Follows (r s : Row) : Type 0 where
  pub same_id : s.id ≡ r.id
  pub same_user : s.user_id ≡ r.user_id
  pub same_request : s.request_id ≡ r.request_id
  pub same_prompt : s.prompt ≡ r.prompt
  pub same_negative_prompt : s.negative_prompt ≡ r.negative_prompt
  pub same_num_steps : s.num_steps ≡ r.num_steps
  pub same_height : s.height ≡ r.height
  pub same_width : s.width ≡ r.width
  pub same_seed : s.seed ≡ r.seed
  pub same_max_retries : s.max_retries ≡ r.max_retries
  pub same_created_at : s.created_at ≡ r.created_at
  pub edge : allowed r.status s.status ≡ true
  pub counted : s.retry_count ≡ retries_after r s.status

-- A new row is queued, a row that goes is finished.
abbrev pub Moves : Option Row → Option Row → Type 0
Moves none none = Unit {0}
Moves none (some s) = s.status ≡ queued
Moves (some r) none = is_finished r.status ≡ true
Moves (some r) (some s) = Follows r s

abbrev pub Lives : Table → Table → Type 0
Lives t u = (id : ℤ) → Moves (find_row id t.rows) (find_row id u.rows)

allowed_self : (s : TaskStatus) → allowed s s ≡ true
allowed_self pending = refl
allowed_self queued = refl
allowed_self generating = refl
allowed_self success = refl
allowed_self failed = refl
allowed_self cancelled = refl
allowed_self timeout = refl
allowed_self unknown = refl

pub Follows-self : (r : Row) → Follows r r
Follows-self r = record {
  same_id = refl;
  same_user = refl;
  same_request = refl;
  same_prompt = refl;
  same_negative_prompt = refl;
  same_num_steps = refl;
  same_height = refl;
  same_width = refl;
  same_seed = refl;
  same_max_retries = refl;
  same_created_at = refl;
  edge = allowed_self r.status;
  counted = ground arith;
}

pub Moves-self : (o : Option Row) → Moves o o
Moves-self none = tt
Moves-self (some r) = Follows-self r

pub Lives-self : (t : Table) → Lives t t
Lives-self t id = Moves-self (find_row id t.rows)

Moves-map :
    (f : Row → Row) → ((r : Row) → Follows r (f r)) → (o : Option Row) → Moves o (map_row f o)
Moves-map f h none = tt
Moves-map f h (some r) = h r

-- An UPDATE that follows the edges on every row.
pub Lives-update :
    (p : Row → Bool) (f : Row → Row)
    → ((r : Row) → (f r).id ≡ r.id)
    → ((r : Row) → Follows r (set_if p f r))
    → (t : Table) → Lives t (record t { rows = update_where p f t.rows })
Lives-update p f same h t id =
    rw (find_row-update p f same id t.rows) (Moves-map (set_if p f) h (find_row id t.rows))

Moves-append :
    (id : ℤ) (rs : List Row) (s : Row)
    → s.status ≡ queued
    → Moves (find_row id rs) (find_row id (rs ++ s ∷ []))
Moves-append id [] s q = elim (Bool-cases (eqb_ℤ s.id id)) [ inl e ↦ rw e q | inr e ↦ rw e tt ]
Moves-append id (r ∷ rs) s q = elim (Bool-cases (eqb_ℤ r.id id)) [
  | inl e ↦ rw e (Follows-self r)
  | inr e ↦ rw e (Moves-append id rs s q)
]

pub Lives-append :
    (t : Table) (s : Row) (n : ℕ)
    → s.status ≡ queued
    → Lives t (record { rows = t.rows ++ s ∷ []; next_id = n })
Lives-append t s n q id = Moves-append id t.rows s q

find_row-apart :
    (id other : ℤ) (rs : List Row)
    → eqb_ℤ other id ≡ true
    → All (λ s. eqb_ℤ other s.id ≡ false) rs
    → find_row id rs ≡ none
find_row-apart id other [] e a = refl
find_row-apart id other (r ∷ rs) e a = ground (arith, find_row-apart id other rs e a.1)

Moves-delete :
    (p : Row → Bool)
    → ((r : Row) → p r ≡ true → is_finished r.status ≡ true)
    → (id : ℤ) (rs : List Row) → Distinct rs
    → Moves (find_row id rs) (find_row id (delete_where p rs))
unfolding delete_where
Moves-delete p h id [] d = tt
Moves-delete p h id (r ∷ rs) d = elim (Bool-cases (eqb_ℤ r.id id)) [
  | inl e ↦ elim (Bool-cases (p r)) [
    | inl hit ↦
        rw
          (
            e,
            hit,
            delete_where,
            find_row-apart id r.id (delete_where p rs) e
                (delete-All p (λ s. eqb_ℤ r.id s.id ≡ false) rs d.0),
          )
          (h r hit)
    | inr miss ↦ rw (e, miss, delete_where) (rw e (Follows-self r))
  ]
  | inr e ↦ elim (Bool-cases (p r)) [
    | inl hit ↦ rw (e, hit, delete_where) (Moves-delete p h id rs d.1)
    | inr miss ↦ rw (e, miss, delete_where) (rw e (Moves-delete p h id rs d.1))
  ]
]

pub Lives-delete :
    (p : Row → Bool)
    → ((r : Row) → p r ≡ true → is_finished r.status ≡ true)
    → (t : Table) → Distinct t.rows
    → Lives t (record t { rows = delete_where p t.rows })
Lives-delete p h t d id = Moves-delete p h id t.rows d

Moves-map_twice :
    (f g : Row → Row)
    → ((r : Row) → Follows r (g (f r)))
    → (o : Option Row) → Moves o (map_row g (map_row f o))
Moves-map_twice f g h none = tt
Moves-map_twice f g h (some r) = h r

-- Two UPDATEs that follow one edge together.
pub Lives-update_twice :
    (p q : Row → Bool) (f g : Row → Row)
    → ((r : Row) → (f r).id ≡ r.id)
    → ((r : Row) → (g r).id ≡ r.id)
    → ((r : Row) → Follows r (set_if q g (set_if p f r)))
    → (t : Table) → Lives t (record t { rows = update_where q g (update_where p f t.rows) })
Lives-update_twice p q f g same same' h t id =
    rw (find_row-update q g same' id (update_where p f t.rows), find_row-update p f same id t.rows)
      (Moves-map_twice (set_if p f) (set_if q g) h (find_row id t.rows))

-- An UPDATE that follows the edges on the rows of the table.
pub Lives-update_found :
    (p : Row → Bool) (f : Row → Row)
    → ((r : Row) → (f r).id ≡ r.id)
    → (t : Table) → ((id : ℤ) (r : Row) → find_row id t.rows ≡ some r → Follows r (set_if p f r))
    → Lives t (record t { rows = update_where p f t.rows })
Lives-update_found p f same t h id =
    rw (find_row-update p f same id t.rows) (go (find_row id t.rows) (h id))
  where
    go :
        (o : Option Row)
        → ((r : Row) → o ≡ some r → Follows r (set_if p f r))
        → Moves o (map_row (set_if p f) o)
    go none k = tt
    go (some r) k = k r refl
