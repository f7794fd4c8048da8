-- ===== src/React.antt =====
-- packages/react: the state of a chat in the browser.
pub mod State
