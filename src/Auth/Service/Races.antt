-- ===== src/Auth/Service/Races.antt =====
-- Two exchanges of one refresh token that overlap.
use shadraw.Base.{ℕ, String, Bool, ◌≡◌, ok}
use shadraw.Table.{Table}
use shadraw.User
use shadraw.User.{User}
use shadraw.Auth
use shadraw.Auth.{RefreshToken, Libraries, Claims, hash_refresh_token}
use shadraw.Auth.Service

module _ {Db : Type 0} (lib : Libraries) (users : Table Db User User.key User.Fills)
    (tokens : Table Db RefreshToken Auth.key Auth.Fills) where
  -- The statements on the table get through, and tokens can be signed.
  pub record Answers : Type 0 where
    pub updates :
        (p : RefreshToken → Bool) (f : RefreshToken → RefreshToken) (d : Db)
        → (n : ℕ) × ((tokens.update p f d).0 ≡ ok n)
    pub creates :
        (given : RefreshToken) (d : Db) → (t : RefreshToken) × ((tokens.create given d).0 ≡ ok t)
    pub signs : (c : Claims) → (text : String) × (lib.sign c ≡ ok text)
