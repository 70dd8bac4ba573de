-- ===== src/App.antt =====
-- kernel/app: the editor.
pub mod Vim
