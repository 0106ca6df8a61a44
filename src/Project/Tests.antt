-- ===== src/Project/Tests.antt =====
-- Two projects in memory.
use shadraw.Base.{◌≡◌, refl, List, [], ◌∷◌, err}
use shadraw.Table.{Table}
use shadraw.Table.Memory.{memory}
use shadraw.Project
use shadraw.Project.{Project, key, Fills, owned, project_not_found}
use shadraw.Project.Ownership.{projects_of_others, projects-others}

abbrev Db : Type 0
Db = List Project

abbrev projects : Table Db Project key Fills
projects =
    memory key Fills (λ d. d) (λ rows d. rows) (λ rows d. refl) (λ n p. record p { id = n })
      (λ n p. refl) (λ n p. refl)

abbrev two : Db
two =
    record { id = 1; user_id = 7; name = "cats"; created_at = 0 }
    ∷ record { id = 2; user_id = 8; name = "dogs"; created_at = 0 }
    ∷ []

projects-others_example :
    (projects_of_others 7 (Project.rename projects 1 7 "lions" two).1 ≡ projects_of_others 7 two)
    × (projects_of_others 7 (Project.delete projects 1 7 two).1 ≡ projects_of_others 7 two)
projects-others_example = projects-others projects 1 7 "lions" two

refuses : (Project.delete projects 2 7 two).0 ≡ err project_not_found
unfolding Project.delete
refuses = refl
