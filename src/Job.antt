-- ===== src/Job.antt =====
-- src/Job.hpp and src/Job.cpp: jobs and their numbers. What a job does is a parameter.
use cdnalizerd.Base.{ℕ, suc}
use cdnalizerd.Base.Text.{Text}

pub record Job (Work : Type 0) : Type 0 where
  pub id : ℕ
  pub name : Text
  pub work : Work

-- The constructor, with `nextId` before it and after it.
unfoldable pub make_job : {Work : Type 0} → ℕ → Text → Work → Job Work × ℕ
make_job next_id name work = (record { id = next_id; name = name; work = work }, suc next_id)
