-- ===== src/Models.antt =====
-- The shared data of the program: the enumerations of backend/app/models/enums.py and the rows of
-- backend/app/models/db.py.
pub mod Enums
pub mod Json
pub mod Db
