-- ===== src/Store/ProjectCalls.antt =====
-- internal/store/sqlite.go: calls on projects leave tasks and attempts as they are.
use mar.Prelude.{ℕ, ◌==◌, not, any, inl, inr}
use mar.Sql.{count_where}
use mar.Domain.Task.{Project}
use mar.Store.{Db, Result-cases, by_project}
use mar.Store.Projects.{register_project, delete_project, get_project, project_collides, refers}
use mar.Store.Tame.{Leads, Leads-if, Tame, Tame-refl, projects-Tame}

pub register_project-Tame :
    (clean : ℕ → ℕ) (p : Project) (db : Db) → Leads (Tame db) (register_project clean p db)
unfolding register_project
register_project-Tame clean p db =
    Leads-if (Tame db) (not (any (project_collides p) db.projects)) _ _ (λ _. projects-Tame _ db)
      λ _. elim (Result-cases (get_project p.id db)) [
        | inl (x, e) ↦ rw (e, Leads) tt
        | inr (q, e) ↦
            rw (e, Leads)
              (Leads-if (Tame db) (clean q.root == clean p.root) _ _ (λ _. Tame-refl db) (λ _. tt))
      ]

pub delete_project-Tame : (id : ℕ) (db : Db) → Leads (Tame db) (delete_project id db)
unfolding delete_project
delete_project-Tame id db =
    Leads-if (Tame db) (count_where (by_project id) db.projects == 0) _ _ (λ _. tt)
      λ _. Leads-if (Tame db) (any (refers id) db.tasks) _ _ (λ _. tt) (λ _. projects-Tame _ db)
