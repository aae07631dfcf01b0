-- ===== src/Pages/Tests.antt =====
-- The theorems on levels and paths at concrete pages.
use hcfs.Pages.Levels.{check_page_level}
use hcfs.Pages.Paths.{LevelOf, check_page_level-LevelOf}

check_page_level-LevelOf_example : LevelOf 1100000 (check_page_level 1100000)
check_page_level-LevelOf_example = check_page_level-LevelOf 1100000
