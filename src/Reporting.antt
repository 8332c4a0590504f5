-- ===== src/Reporting.antt =====
-- The report writers of src/switchtest/infrastructure/reporting: `Junit` is junit_report.py, `Summary` is
-- `render_suite_summary` of console.py. Writing the files is left out.
pub mod Junit
pub mod Summary
