-- ===== src/Service/Pages.antt =====
-- Pages of listings (internal/service/pagination.go, `ListReleases` of workflow.go).
pub mod Tiling
use go_prod22_go_project.Prelude.{
  ℕ, ◌-◌, ℤ, String, Bool, true, false, ◌||◌, ◌==◌, if◌then◌else◌, List, length, take, drop,
  sort_by, pos, pos_part, int64, ◌+ℤ◌, ◌-ℤ◌, ltb_ℤ, leb_ℤ, keep,
}
use go_prod22_go_project.Prelude.Map.{values}
use go_prod22_go_project.Domain.Status.{TaskStatus, task_status_eq}
use go_prod22_go_project.Domain.Model.{Release, Task, before}
use go_prod22_go_project.Store.{State}
use go_prod22_go_project.Service.Dispatch.{list_tasks}

pub record Page {ℓ} (A : Type ℓ) : Type ℓ where
  pub items : List A
  pub offset : ℤ
  pub limit : ℤ
  pub total : ℤ

abbrev pub page_limit : ℤ → ℤ
page_limit limit = if leb_ℤ limit (pos 0) || ltb_ℤ (pos 100) limit then pos 20 else limit

abbrev pub page_offset : ℤ → ℤ → ℤ
page_offset offset total =
    let from = if ltb_ℤ offset (pos 0) then pos 0 else offset in
    if ltb_ℤ total from then total else from

unfoldable pub clamp_page : ℤ → ℤ → ℤ → ℤ × ℤ
clamp_page offset limit total =
    let from = page_offset offset total in
    let to = int64 (from +ℤ page_limit limit) in (from, if ltb_ℤ total to then total else to)

-- `items[from:to]`, for indices in range.
abbrev pub slice {ℓ} : {A : Type ℓ} → List A → ℤ → ℤ → List A
slice items from to = take (pos_part to - pos_part from) (drop (pos_part from) items)

abbrev pub page_at {ℓ} : {A : Type ℓ} → List A → ℤ × ℤ → Page A
page_at items (from, to) = record {
  items = slice items from to;
  offset = from;
  limit = to -ℤ from;
  total = pos (length items);
}

unfoldable pub page {ℓ} : {A : Type ℓ} → List A → ℤ → ℤ → Page A
page items offset limit = page_at items (clamp_page offset limit (pos (length items)))

unfoldable pub list_releases : State → List Release
list_releases st = sort_by (λ a b. before a.created_at b.created_at) (values st.releases)

unfoldable pub release_page : ℤ → ℤ → State → Page Release
release_page offset limit st = page (list_releases st) offset limit

unfoldable pub task_page : String → ℤ → ℤ → State → Page Task
task_page release offset limit st =
    page (sort_by (λ a b. before a.updated_at b.updated_at) (list_tasks release st)) offset limit

unfoldable pub tasks_by_status : TaskStatus → State → List Task
tasks_by_status status st =
    sort_by (λ a b. before a.updated_at b.updated_at)
      (keep (λ t. t.status == status) (values st.tasks))
