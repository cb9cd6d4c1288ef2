-- ===== src/Service/Rules.antt =====
-- Rules for the actions of the service, one for each way to build one: what keeps the database
-- valid, what only reads it, and what changes it only when it ends with no error.
use anonym_sharing.Base.{
  ◌≡◌, ◌≢◌, refl, ◌∙◌, sym, subst, Bool, true, false, String, Exception, Result, ok, raise, Exec,
  pure, lift, continue, ◌>>=◌, if◌then◌else◌,
}
use anonym_sharing.Database.{MemDatabase}
use anonym_sharing.Database.Invariant.{IsValid}
use anonym_sharing.Database.Throws.{IsAtomic}
use anonym_sharing.Service.{AskyError, no_error, Session, on_database, respond, draw}

abbrev pub db_of : Session → MemDatabase
db_of s = s.service.database_

-- A method of the database that keeps it valid.
pub record KeepsDb {A : Type 0} (m : Exec MemDatabase A) : Type 0 where
  pub at : (db : MemDatabase) → IsValid db → IsValid (m db).1

pub record Keeps {A : Type 0} (m : Exec Session A) : Type 0 where
  pub at : (s : Session) → IsValid (db_of s) → IsValid (db_of (m s).1)

pub record Reads {A : Type 0} (m : Exec Session A) : Type 0 where
  pub at : (s : Session) → db_of (m s).1 ≡ db_of s

pub record Commits (m : Exec Session AskyError) : Type 0 where
  pub at : (s : Session) → IsValid (db_of s) → (m s).0 ≢ ok no_error → db_of (m s).1 ≡ db_of s

module _ {A : Type 0} where
  pub Reads-pure : (a : A) → Reads (pure a)
  Reads-pure a = record { at = λ s. refl }

  pub Reads-lift : (r : Result A) → Reads (lift r)
  Reads-lift r = record { at = λ s. refl }

  pub Reads-Keeps : (m : Exec Session A) → Reads m → Keeps m
  Reads-Keeps m r = record { at = λ s v. subst IsValid (sym (r.at s)) v }

  pub Keeps-on_database : (m : Exec MemDatabase A) → KeepsDb m → Keeps (on_database m)
  unfolding on_database
  Keeps-on_database m k = record { at = λ s v. k.at (db_of s) v }

  pub Keeps-if : (b : Bool) (m n : Exec Session A) → Keeps m → Keeps n → Keeps (if b then m else n)
  Keeps-if true m n km kn = km
  Keeps-if false m n km kn = kn

pub Reads-respond : (key value : String) → Reads (respond key value)
Reads-respond key value = record { at = λ s. refl }

pub Reads-draw : Reads draw
Reads-draw = record { at = λ s. refl }

pub Reads-Commits : (m : Exec Session AskyError) → Reads m → Commits m
Reads-Commits m r = record { at = λ s v h. r.at s }

pub Commits-if :
    (b : Bool) (m n : Exec Session AskyError) → Commits m → Commits n → Commits (if b then m else n)
Commits-if true m n cm cn = cm
Commits-if false m n cm cn = cn

module _ {A B : Type 0} where
  Keeps-continue :
      (f : A → Exec Session B) (r : Result A) (s : Session)
      → ((a : A) → Keeps (f a))
      → IsValid (db_of s)
      → IsValid (db_of (continue r f s).1)
  Keeps-continue f (ok a) s k v = (k a).at s v
  Keeps-continue f (raise e) s k v = v

  pub Reads-continue :
      (f : A → Exec Session B) (r : Result A) (s : Session)
      → ((a : A) → Reads (f a))
      → db_of (continue r f s).1 ≡ db_of s
  Reads-continue f (ok a) s k = (k a).at s
  Reads-continue f (raise e) s k = refl

  pub Keeps-bind :
      (m : Exec Session A) (f : A → Exec Session B)
      → Keeps m
      → ((a : A) → Keeps (f a))
      → Keeps (m >>= f)
  Keeps-bind m f k l = record { at = λ s v. Keeps-continue f (m s).0 (m s).1 l (k.at s v) }

-- What follows the method may write the response, and ends with no error.
pub record Ends (m : Exec Session AskyError) : Type 0 where
  pub at : (s : Session) → (m s).0 ≡ ok no_error

pub Ends-pure : Ends (pure no_error)
Ends-pure = record { at = λ s. refl }

pub Ends-respond :
    (key value : String) (m : Exec Session AskyError) → Ends m → Ends (respond key value >>= λ _. m)
Ends-respond key value m e = record { at = λ s. e.at _ }

module _ {A : Type 0} where
  Commits-continue :
      (f : A → Exec Session AskyError) (r : Result A) (s : Session)
      → ((a : A) → Commits (f a))
      → IsValid (db_of s)
      → (continue r f s).0 ≢ ok no_error
      → db_of (continue r f s).1 ≡ db_of s
  Commits-continue f (ok a) s c v h = (c a).at s v h
  Commits-continue f (raise e) s c v h = refl

  -- Nothing is written before the first method of the database.
  pub Commits-bind :
      (m : Exec Session A) (f : A → Exec Session AskyError)
      → Reads m
      → ((a : A) → Commits (f a))
      → Commits (m >>= f)
  Commits-bind m f r c = record {
    at = λ s v h. Commits-continue f (m s).0 (m s).1 c (subst IsValid (sym (r.at s)) v) h ∙ r.at s;
  }

  commit_continue :
      (f : A → Exec Session AskyError) (r : Result A) (s t : Session)
      → ((a : A) → Ends (f a))
      → ((x : Exception) → r ≡ raise x → db_of t ≡ db_of s)
      → (continue r f t).0 ≢ ok no_error
      → db_of (continue r f t).1 ≡ db_of s
  commit_continue f (ok a) s t e h k = absurd (k ((e a).at t))
  commit_continue f (raise x) s t e h k = h x refl

  -- The one method that writes is the last step that can fail, and it is atomic.
  pub Commits-on_database :
      (m : Exec MemDatabase A) (f : A → Exec Session AskyError)
      → IsAtomic m
      → ((a : A) → Ends (f a))
      → Commits (on_database m >>= f)
  unfolding on_database
  Commits-on_database m f a e = record {
    at = λ s v h.
        commit_continue f (m (db_of s)).0 s (on_database m s).1 e (λ x. a.at (db_of s) x v) h;
  }

  pub Reads-bind :
      {B : Type 0} (m : Exec Session A) (f : A → Exec Session B)
      → Reads m
      → ((a : A) → Reads (f a))
      → Reads (m >>= f)
  Reads-bind m f r k = record { at = λ s. Reads-continue f (m s).0 (m s).1 k ∙ r.at s }

pub ruleset keeps_rules = (
  Keeps-bind, Keeps-if, Keeps-on_database, Reads-Keeps, Reads-pure, Reads-lift, Reads-respond,
  Reads-draw,
)

pub ruleset commits_rules = (
  Commits-bind, Commits-if, Commits-on_database, Reads-Commits, Ends-pure, Ends-respond, Reads-pure,
  Reads-lift, Reads-respond, Reads-draw,
)
